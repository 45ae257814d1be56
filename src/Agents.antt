-- ===== src/Agents.antt =====
-- The agents of an investigation (src/oncall/agents).
pub mod Supervisor
pub mod Gates
pub mod Loop
pub mod Output
pub mod Reads
pub mod Plans
