-- ===== src/Db.antt =====
-- The database behind server/internal/store/postgres/store.go, as server/migrations lay it out.
-- Each operation of the store is one or two SQL statements; a statement is atomic, and takes the
-- tables to the tables. `now` is the database's clock, which SQL's now() reads; Go's time.Now() is
-- an argument of the operations that read it.
pub mod Runners
pub mod Commands
pub mod Logs
pub mod Metrics
pub mod Rollups
pub mod Policies
pub mod Notify
pub mod State
pub use State.{Db, IsValid}
