-- ===== src/Server/Store.antt =====
-- zkapi-serverd/src/nullifier_store.rs: the two SQLite tables, their rows and the records that a
-- row is read as. An INTEGER column holds the bit pattern of the i64 or i32 that is bound to it.
-- The statements are read at their standard meaning; a failing database connection and a poisoned
-- lock are left out. `now` is the reading of `current_timestamp()`.
mod Defs
pub mod Nullifiers
pub mod Leases
pub mod LeaseFrame
pub mod Rows
pub mod Advance
pub mod Columns
pub mod Effects
unfoldable pub use Defs.*
