-- ===== src/Tests.antt =====
-- Concrete inputs for the theorems, and a small engine, generator and database to run on.
pub mod Links
pub mod Codes
pub mod Configs
pub mod Lifecycle
pub mod Urls
pub mod Forms
pub mod Handlers
pub mod Files
pub mod Requests
pub mod Uploads
pub mod Services
pub mod Api
pub mod Images
