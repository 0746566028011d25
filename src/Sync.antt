-- ===== src/Sync.antt =====
-- crates/sismatic-sync/src/driver.rs: which polling loops run, and how they follow the schedule and
-- the fleet.
pub mod Pairs
pub mod Driver
pub mod Wanted
pub mod Turns
pub mod Convergence
pub mod Health
