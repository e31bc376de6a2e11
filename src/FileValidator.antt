-- ===== src/FileValidator.antt =====
-- src/utils/file_validator.cc: `FileValidator`.
pub mod Types
pub mod Validate
pub mod Sanitize
pub mod Scan
