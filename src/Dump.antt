-- ===== src/Dump.antt =====
-- internal/dump and internal/mysqldumpopt: the arguments of mysqldump.
pub mod LongName
pub mod Args
pub mod Capture
pub mod Environment
pub mod Runner
