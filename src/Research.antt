-- ===== src/Research.antt =====
-- crates/research-graph: the research object graph.
pub mod Entities
mod Tests
