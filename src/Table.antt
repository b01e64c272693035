-- ===== src/Table.antt =====
-- A table of the database as the list of its rows in insertion order, and what the SQL statements of
-- server/internal/store/postgres/store.go do to one: SELECT, UPDATE, DELETE, ORDER BY.
-- Rows that an ORDER BY does not tell apart stay in insertion order (PostgreSQL promises none).
pub mod Rows
pub mod Keys
pub mod Sorting
pub mod Ordered
pub mod Counts
pub mod Removal
unfoldable pub use Rows.{find, update, select, affected}
unfoldable pub use Sorting.{sort_by, insert_by, first}
