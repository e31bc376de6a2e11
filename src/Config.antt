-- ===== src/Config.antt =====
-- src/config_parser.cc, include/config_parser.h: the parser of configuration files.
pub mod Syntax
pub mod Lexer
pub mod Parser
pub mod RoundTrip
