-- ===== src/Config.antt =====
-- The package internal/config: jobs, their names, secrets, schedules and dump options.
pub mod Types
pub mod Schedule
pub mod Secrets
pub mod Findings
pub mod Patterns
pub mod DumpOptions
pub mod Endpoint
pub mod Checks
pub mod Validate
