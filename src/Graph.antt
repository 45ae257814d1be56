-- ===== src/Graph.antt =====
-- The incident graph (src/oncall/graph).
pub mod Contracts
pub mod Incident
pub mod Recovery
