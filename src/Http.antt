-- ===== src/Http.antt =====
-- crates/sismatic-http-api/src/handlers: what the routes of a group answer.
pub mod Failure
pub mod Target
pub mod Paging
pub mod GroupReads
pub mod Verdict
