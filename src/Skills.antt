-- ===== src/Skills.antt =====
-- The skills that an investigation may use (src/oncall/skills).
pub mod Registry
pub mod Ranking
pub mod Selection
