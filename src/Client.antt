-- ===== src/Client.antt =====
-- The runner's side: client/internal.
pub mod Lines
pub mod Executor
pub mod Lifecycle
pub mod Listener
pub mod Connection
pub mod Config
pub mod Startup
pub mod Program
pub mod Shipping
