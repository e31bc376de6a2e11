-- ===== src/Service.antt =====
-- src/services/: the two services behind the pages of the application.
pub mod Privacy
pub mod Url
pub mod FileUpload
