-- ===== src/Backup.antt =====
-- internal/backup: one backup of a job, and the run of a selection of jobs.
pub mod Fault
pub mod Types
pub mod Service
pub mod Run
pub mod Summary
