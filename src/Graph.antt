-- ===== src/Graph.antt =====
-- database_utils/utils/network_graph.py: the company's network tree.
pub mod Paths
pub mod Reparent
pub mod PathLaws
mod Examples
