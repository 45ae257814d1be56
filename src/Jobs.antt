-- ===== src/Jobs.antt =====
-- The worker's jobs (src/oncall/jobs).
pub mod Tasks
pub mod Resume
pub mod Walk
pub mod Outcomes
