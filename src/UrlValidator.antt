-- ===== src/UrlValidator.antt =====
-- src/utils/url_validator.cc: checking a URL, and bringing it into the form that is stored.
pub mod Parts
pub mod Normalize
pub mod Domain
pub mod Validate
