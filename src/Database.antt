-- ===== src/Database.antt =====
-- src/titanbox/database.py
pub mod Jobs
pub mod Idempotency
