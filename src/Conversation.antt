-- ===== src/Conversation.antt =====
-- The conversational entry (src/oncall/conversation).
pub mod Intents
pub mod Answers
pub mod Turns
pub mod Boundary
pub mod Offline
pub mod Router
pub mod Ownership
