-- ===== src/Deploy.antt =====
-- `DeploymentManager` of src/titanbox/deploy.py
pub mod Paths
pub mod Archive
pub mod Restore
pub mod Manifest
pub mod Project
pub mod Finalize
pub mod Rollback
pub mod Runs
