-- ===== src/Graph.antt =====
-- internal/graph/graph.go and context.go: queries of the linked code graph.
pub mod Edges
pub mod Path
mod Tests
