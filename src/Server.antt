-- ===== src/Server.antt =====
-- The server: server/internal/api, server/internal/workers, and the dispatch of server/cmd/server.
pub mod Store
pub mod Http
pub mod Handlers
pub mod Hub
pub mod Dispatch
pub mod Reaper
pub mod Retention
pub mod Rollup
pub mod Config
