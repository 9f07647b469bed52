-- ===== src/Filters.antt =====
-- crates/agentgateway/src/http/filters.rs: the request filters. URIs and header maps are types of the
-- `http` crate, which is not part of the repository: they come as interfaces.
pub mod Uris
pub mod Rewrite
pub mod Headers
mod Tests
