-- ===== src/Lib.antt =====
-- sismatic controls recorders over the SIS protocol: HTTP handlers submit writes to an outbox, a relay
-- drains the outbox to the devices, and a synchroniser polls the devices into a read store. These
-- modules model the parts that keep state and decide.
--
--   Common          texts, lists, sets and maps (`BTreeMap`, `DashMap`, `BTreeSet`), and Boolean tests
--   Api             crates/sismatic-api-types/src: the values, writes, reads and group expectations
--   Store           crates/sismatic-store/src/outbox.rs: admission (`admit`), its undoing (`rollback`),
--                   `reconcile`, and the numbering of takes (`epoch_of`, `opens_recording`); and
--                   group.rs: `expects` and `satisfies` (Expectation)
--   Outbox          crates/sismatic-store-memory/src/outbox.rs. State holds `DeviceLog`, `Batch` and the
--                   outbox; Submit, Cancel, Drain, Settle and Queries hold the operations, one function
--                   for each, named as in the source; the other files hold proofs. History has the
--                   operations as steps, in any order
--   Reads           crates/sismatic-store-memory/src/lib.rs, the read store. Books and Ledger are the
--                   source's accounts, State the store and its operations, Sizes the estimate of an
--                   entry's bytes, over the compiler's struct sizes as the parameter `Layout`; the
--                   other files hold proofs
--   Devices         crates/sismatic-core/src/devices/auto_disabled.rs: the fields a device has refused
--                   too often, with the clock's instants as arguments
--   Sync            crates/sismatic-sync/src/driver.rs: the loops that a schedule and a fleet want, the
--                   step that reconciles the running ones with them (`Loops::reconcile`, here
--                   `reconcile_loops`), and the health machine (`step`). A cancellation token is the
--                   number of its start
--   Relay           crates/sismatic-intent-relay/src/relay.rs: what a relay does with the writes that an
--                   earlier process left in flight (`recover`), and with the next claim of its device
--                   (`dispatch_one`, in Dispatch), on the outbox's model
--   Upkeep          `RelayHandle::apply` of relay.rs and `SisKeepalive::apply` of
--                   crates/sismatic-core/src/devices/sis_keepalive.rs, which are the same loops
--   Catalog         crates/sismatic-store-memory/src/catalog.rs, over any summaries that have an id
--   Protocol        crates/sismatic-core/src/protocol: the four catalogs (Queries, Settings, Registers and
--                   Commands), each an enumeration with its names and aliases, and `from_str`, the
--                   descriptions left out; the values that are read (Values), the error lines of a reply
--                   (Replies), what a setting's value must look like (Encoding), the payloads (Payloads),
--                   and the instructions, with crates/sismatic-intent-relay/src/translate.rs
--                   (Instructions)
--   Control         crates/sismatic-core/src/devices: an exchange over a connection (Exchange, of
--                   controller.rs), a device's commands over its link (Device, of device.rs), a group's
--                   (Group, of group.rs), and the texts of their errors (Errors). A transport is a
--                   script of what its reads come to, and the dials to come are a script too
--   Fleet           crates/sismatic-core/src/devices/config.rs (Config, Fingerprint and Resolve: a parsed
--                   devices file and what it resolves to), registry.rs (Registry) and
--                   crates/sismatic-server/src/fleet.rs (Export, Live, Inventory and Operations: the
--                   fleet that is changed while it runs). Summaries is what the API shows of it. History
--                   has the operations as steps, in any order; the other files hold proofs
--   Http            crates/sismatic-http-api/src/handlers: what the routes that read a group answer
--                   (GroupReads, of group_reads.rs, and `group_desired_recording_state` of writes.rs), how
--                   an id is told to be a group's (Target, of target.rs), and the pages of a history
--                   (Paging, of reads.rs); the other files hold the failures and proofs
--   Tests           fixtures, and each theorem at work on them
--
-- The relay and the handlers are the outbox's clients, the synchroniser, the sweeper and the handlers those
-- of the read store. A removal from the fleet cancels the device's queued writes in the outbox and drops its
-- history from the read store.
--
-- An operation of the outbox holds the mutex of its state from beginning to end, so it is one
-- function on the state; the record map beside the mutex is part of that state. The read store locks
-- its two maps and its ledger one after another; an operation of it is one function on all three.
-- Numbers are natural numbers: a `u32` or `u64` that is added to wraps, a `usize` count of loops,
-- tasks or entries does not, a duration counts nanoseconds, and the product of the backoff and the
-- attempts is taken without the overflow check that Rust makes. Timestamps are texts, compared as
-- the program compares them. The `chrono` crate (parsing, rendering and adding to an instant) is the
-- parameter `Chrono`; the reply parsers, which the winnow crate combines, are the parameter `Parsers`;
-- what a device does with an instruction is, for the relay, the parameter `Runner`; the uuid crate, the serde printers, the file
-- system and the loading of a devices file are the parameter `World` of the fleet. An `Arc` is a number
-- that its allocation draws. Loops over queues and targets are recursion on lists, so there is no fuel, but
-- for the decimal rendering of a number in Common/Text.antt, which takes one more than the number, and
-- for the loop of `Device::exec`, which takes two: it goes round again once at most.
--
-- Not modelled: locking and the order in which tasks get the mutex (a history takes any order), the
-- handlers of the other routes, telemetry, SSH, the parsing of configuration files, and the front
-- ends. The relay's polling loop,
-- the supervisor and the polling tasks of the synchroniser, and the server's own configuration are not
-- modelled. The tasks of a group run one after another, in the order of its members.
pub mod Common
pub mod Api
pub mod Protocol
pub mod Store
pub mod Outbox
pub mod Reads
pub mod Devices
pub mod Sync
pub mod Relay
pub mod Upkeep
pub mod Catalog
pub mod Fleet
pub mod Control
pub mod Http
pub mod Tests
