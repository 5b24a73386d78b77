-- ===== src/Tests.antt =====
-- The theorems at concrete inputs.
mod Security
mod Telegram
mod Database
mod Runner
mod Deploy
mod Storage
mod Settings
mod Admin
mod Archive
mod Restore
mod Http
