-- ===== src/Tests.antt =====
-- The theorems at concrete inputs.
pub mod Data
pub mod State
pub mod Decisions
pub mod Executions
pub mod Sessions
pub mod Alerting
pub mod Steps
pub mod Rollbacks
pub mod Skills
pub mod Runs
pub mod Experiences
pub mod Turns
pub mod Entries
pub mod Selections
pub mod Webhooks
pub mod Chunking
