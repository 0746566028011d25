-- ===== src/Tests.antt =====
-- Concrete runs of the model: the fixtures, and each theorem at work on them.
mod Fixtures
pub mod Outbox
mod Reads
mod Devices
mod Policy
mod Sync
mod Relay
mod Upkeep
mod Catalog
pub mod Fleet
mod Protocol
mod Control
mod Dispatch
mod Http
