-- ===== src/Graph/Csr/Compact.antt =====
-- `compact` changes the representation of a graph and not the graph.
mod Rows
pub mod Same
