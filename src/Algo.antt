-- ===== src/Algo.antt =====
-- crates/oxgraph-algo: algorithms over any dense topology.
pub mod Topology
pub mod Toposort
pub mod Sssp
pub mod LongestPath
pub mod OfCsr
