-- ===== src/Validation.antt =====
-- The package internal/validation: a report, the selection of jobs, and the live checks.
pub mod Report
pub mod Selection
pub mod Connectivity
pub mod Jobs
pub mod Check
pub mod Identity
pub mod LogTarget
pub mod SensitiveFile
