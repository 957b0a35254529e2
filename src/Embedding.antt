-- ===== src/Embedding.antt =====
-- The embedding crate: crates/mentedb-embedding.
pub mod Cache
mod Tests
