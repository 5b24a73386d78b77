-- ===== src/Telegram.antt =====
-- src/titanbox/telegram.py
pub mod Dedup
pub mod Hub
pub mod Webhooks
pub mod Specs
