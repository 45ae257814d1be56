-- ===== src/Recovery.antt =====
-- The Recovery MCP: src/mcp_servers/recovery/server.py and the adapter that it calls,
-- src/oncall/execution/tencent_tat.py, with the proof that the executor of
-- src/oncall/execution/service.py signs. HMAC-SHA256 and the text of a UUID are parameters.
pub mod Proof
pub mod Server
pub mod Signed
pub mod Once
pub mod Tat
pub mod Polling
pub mod Command
