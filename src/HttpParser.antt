-- ===== src/HttpParser.antt =====
-- src/utils/http_parser.cc, include/utils/http_parser.h: reading the bodies of HTTP requests.
pub mod Codec
pub mod Form
pub mod Header
pub mod Multipart
