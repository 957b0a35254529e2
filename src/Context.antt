-- ===== src/Context.antt =====
-- The assembly of a context window: crates/mentedb-context/src.
pub mod Budget
pub mod Layout
pub mod Delta
pub mod Assembler
mod Tests
