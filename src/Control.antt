-- ===== src/Control.antt =====
-- crates/sismatic-core/src/devices: one device, its connection and its commands.
pub mod Exchange
pub mod Device
pub mod Rounds
pub mod Execution
pub mod Links
pub mod Gate
pub mod Errors
pub mod Group
pub mod Gathered
