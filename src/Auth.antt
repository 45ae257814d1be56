-- ===== src/Auth.antt =====
-- Sessions of the users (src/oncall/auth).
pub mod Tokens
pub mod Router
pub mod Admin
pub mod Admins
pub mod Families
pub mod Sessions
pub mod Replay
