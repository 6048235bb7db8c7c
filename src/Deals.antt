-- ===== src/Deals.antt =====
-- The invariant of what the quotes, the payments and the status of a request say together, with
-- the changes of the tables against it.
mod Defs
pub mod Statements
pub mod Tables
pub mod Decision
unfoldable pub use Defs.*
