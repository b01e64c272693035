-- ===== src/Server/Handlers.antt =====
-- The HTTP handlers of server/internal/api/handlers, over any store. A request's body comes decoded:
-- `none` is a body that encoding/json refuses.
pub mod Auth
pub mod Commands
pub mod Runners
