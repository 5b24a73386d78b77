-- ===== src/Security.antt =====
-- src/titanbox/security.py
pub mod TokenBucket
pub mod FailureCircuit
pub mod Totp
