-- ===== src/Cron.antt =====
-- internal/cron: the cron file of the program, its text and the file itself.
pub mod Marker
pub mod Render
pub mod Manager
