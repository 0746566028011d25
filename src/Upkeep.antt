-- ===== src/Upkeep.antt =====
-- crates/sismatic-intent-relay/src/relay.rs and crates/sismatic-core/src/devices/sis_keepalive.rs:
-- one task for each device, brought in line with the devices that there are.
pub mod Tasks
pub mod Following
