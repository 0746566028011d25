-- ===== src/Outbox.antt =====
-- crates/sismatic-store-memory/src/outbox.rs: queues of writes by device, with admission under one
-- lock, a rendezvous for the writes of a device group, retries, and cancellation.
pub mod State
pub mod Submit
pub mod Cancel
pub mod Queries
pub mod Drain
pub mod Settle
pub mod Cases
pub mod Queues
pub mod Claims
pub mod Settling
pub mod Cancellation
pub mod Submission
pub mod History
pub mod Totality
pub mod Rendezvous
pub mod Batches
pub mod Members
pub mod Release
pub mod Stragglers
pub mod Atomicity
pub mod Accepting
pub mod Accepted
pub mod Replays
pub mod Idempotency
pub mod Changes
pub mod Changing
pub mod Lives
pub mod Draining
pub mod Cleared
pub mod Expectations
