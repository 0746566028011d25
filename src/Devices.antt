-- ===== src/Devices.antt =====
-- crates/sismatic-core/src/devices: what the process keeps about each device.
pub mod AutoDisabled
pub mod Vetoes
