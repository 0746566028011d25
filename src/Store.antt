-- ===== src/Store.antt =====
-- crates/sismatic-store: the ports, and the policy that every adapter of them shares.
pub mod Policy
pub mod Expectation
pub mod Spelling
pub mod Admission
