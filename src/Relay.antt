-- ===== src/Relay.antt =====
-- crates/sismatic-intent-relay/src/relay.rs: the relay, the client that drains the outbox to the
-- devices.
pub mod Recovery
pub mod Own
pub mod Landing
pub mod Recovered
pub mod Dispatch
pub mod Dispatched
pub mod Outcomes
