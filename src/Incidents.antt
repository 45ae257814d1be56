-- ===== src/Incidents.antt =====
-- The incident package (src/oncall/incidents).
pub mod State
pub mod Service
pub mod Router
pub mod Decisions
