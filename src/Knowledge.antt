-- ===== src/Knowledge.antt =====
-- The knowledge base (src/oncall/rag).
pub mod Tokens
pub mod Chunking
pub mod Windows
pub mod Sections
pub mod Documents
pub mod Chunks
