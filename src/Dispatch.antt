-- ===== src/Dispatch.antt =====
-- Which handler serves a request: src/handler_registry.cc and src/handler_dispatcher.cc.
pub mod Registry
pub mod Dispatcher
