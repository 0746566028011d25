-- ===== src/Fleet.antt =====
-- The devices and groups that the server runs: crates/sismatic-core/src/devices/config.rs and
-- registry.rs, and crates/sismatic-server/src/fleet.rs.
pub mod Config
pub mod Fingerprint
pub mod Resolve
pub mod Canonical
pub mod Registry
pub mod Summaries
pub mod Live
pub mod Inventory
pub mod Operations
pub mod Written
pub mod RoundTrip
pub mod Rereading
pub mod Ensuring
pub mod Applied
pub mod Agreement
pub mod History
pub mod Steps
pub mod Growth
pub mod Export
