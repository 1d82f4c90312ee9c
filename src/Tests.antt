-- ===== src/Tests.antt =====
-- Concrete runs of the theorems.
pub mod Uploads
pub mod Backups
pub mod Texts
pub mod Validation
pub mod Runs
