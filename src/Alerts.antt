-- ===== src/Alerts.antt =====
-- The alert hub (src/oncall/alerts).
pub mod Service
pub mod Fingerprint
pub mod Readers
pub mod Adapters
pub mod Webhook
