-- ===== src/Reads.antt =====
-- crates/sismatic-store-memory/src/lib.rs: the read store, with the latest reading and the history
-- of each field of each device, and the ledger that keeps the history within a budget.
pub mod Sizes
pub mod Books
pub mod Ledger
pub mod State
pub mod Budget
pub mod Accounts
pub mod Series
pub mod Mirrors
pub mod Consistency
pub mod Answers
