-- ===== src/Http.antt =====
-- src/request.cc, response.cc, session.cc: from the bytes of a connection to those of the answer.
pub mod Request
pub mod Response
pub mod Session
