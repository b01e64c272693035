-- ===== src/Examples.antt =====
-- Runs of the development at concrete inputs.
pub mod Samples
pub mod Registry
pub mod Queue
pub mod Streams
pub mod Logs
pub mod Pipeline
pub mod Rollups
pub mod Sending
pub mod Runner
pub mod Arrivals
pub mod Connections
pub mod Callers
pub mod Startup
