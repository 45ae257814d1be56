-- ===== src/Execution.antt =====
-- Execution and verification of an approved plan (src/oncall/execution).
pub mod Service
pub mod Begin
pub mod Finish
pub mod Claims
pub mod Concurrency
pub mod Verification
pub mod Workflow
pub mod Recording
pub mod Recovered
