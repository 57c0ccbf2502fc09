-- ===== src/Service.antt =====
-- crates/flatbed/src/hyper/service.rs: the dispatch of a request over HTTP.
pub mod Context
pub mod Codec
pub mod Endpoints
pub mod Answering
pub mod Dispatch
pub mod Branches
pub mod Head
pub mod Guards
pub mod Reports
mod Tests
