-- ===== src/Graph.antt =====
-- The directory Graph/: shortest paths.
pub mod Dijkstra
