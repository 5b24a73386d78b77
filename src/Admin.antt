-- ===== src/Admin.antt =====
-- `DeployAdminPlugin` of src/titanbox/plugins/deploy_admin.py
pub mod Action
pub mod Desk
pub mod Documents
pub mod Commands
pub mod Handle
pub mod Freeze
pub mod Recover
pub mod Jobs
