-- ===== src/Cron/Manager.antt =====
-- internal/cron/manager.go: the files that the manager of the cron file works on.
pub mod Files
pub mod Lock
pub mod Mutation
