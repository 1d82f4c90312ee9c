-- ===== src/Storage.antt =====
-- The package internal/storage: object keys, S3 errors, and uploads to S3.
pub mod Key
pub mod Plan
pub mod SafeError
pub mod S3
pub mod Parts
pub mod Uploader
