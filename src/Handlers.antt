-- ===== src/Handlers.antt =====
-- src/handlers/: what each handler answers to a request.
pub mod UrlShortener
pub mod FileSystem
pub mod MimeTypes
pub mod Api
pub mod StaticFile
pub mod Simple
