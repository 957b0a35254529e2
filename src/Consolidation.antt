-- ===== src/Consolidation.antt =====
-- Consolidation: crates/mentedb-consolidation/src.
pub mod Forget
pub mod Archival
mod Tests
