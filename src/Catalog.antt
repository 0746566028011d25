-- ===== src/Catalog.antt =====
-- crates/sismatic-store-memory/src/catalog.rs: the devices and the groups that there are.
pub mod Listing
pub mod Lookup
