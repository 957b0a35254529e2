-- ===== src/Graph.antt =====
-- The knowledge graph: crates/mentedb-graph/src.
pub mod Storage
pub mod Csr
pub mod Traversal
pub mod Dfs
pub mod ShortestPath
pub mod Contradiction
pub mod Cycles
pub mod Belief
pub mod Manager
mod Tests
mod SearchTests
