-- ===== src/Protocol.antt =====
-- crates/sismatic-core/src/protocol: the instructions that a device understands.
pub mod Names
pub mod Queries
pub mod Settings
pub mod Registers
pub mod Commands
pub mod Values
pub mod Replies
pub mod Encoding
pub mod Payloads
pub mod Instructions
pub mod Framing
