-- ===== src/Outbox/State.antt =====
-- crates/sismatic-store-memory/src/outbox.rs: the outbox's state, and the two places where it
-- reads a clock. The state is the mutex's content beside the records; an operation that holds the
-- mutex is one function on it.

use sismatic.Common.{ℕ, max, String, Bool, false, Option, none, some, List, []}
use sismatic.Common.Dict
use sismatic.Common.Dict.{Dict}
use sismatic.Api.{DesiredRecordingState, idle, WriteRecord, GroupExpectation, Timestamp}
use sismatic.Store.Policy.{BarrierPolicy}

pub record DeviceLog : Type 0 where
  pub desired_recording_state : DesiredRecordingState
  pub epoch : ℕ
  pub queue : List String
  pub history : List String
  pub keys : Dict String

abbrev pub default_log : DeviceLog
default_log = record {
  desired_recording_state = idle;
  epoch = 0;
  queue = [];
  history = [];
  keys = Dict.empty;
}

pub data Gate : Type 0 where
  waiting open_gate abandoned : Gate

-- `members` and `ready` are sets: sorted, with no text twice.
pub record Batch : Type 0 where
  pub members : List String
  pub ready : List String
  pub armed_at : Timestamp
  pub barrier : BarrierPolicy
  pub gate : Gate

pub record Outbox : Type 0 where
  pub logs : Dict DeviceLog
  pub batches : Dict Batch
  pub groups : Dict (Dict GroupExpectation)
  pub records : Dict WriteRecord
  pub max_attempts : ℕ  -- u32
  pub backoff : ℕ  -- nanoseconds

abbrev pub default_backoff : ℕ
default_backoff = 500000000

unfoldable pub with_max_attempts : ℕ → Outbox
with_max_attempts n = record {
  logs = Dict.empty;
  batches = Dict.empty;
  groups = Dict.empty;
  records = Dict.empty;
  max_attempts = max n 1;
  backoff = default_backoff;
}

unfoldable pub set_max_attempts : ℕ → Outbox → Outbox
set_max_attempts n o = record o { max_attempts = max n 1 }

unfoldable pub with_backoff : ℕ → Outbox → Outbox
with_backoff backoff o = record o { backoff = backoff }

-- What `state.logs.entry(device).or_default()` reads.
abbrev pub log_of : String → Outbox → DeviceLog
log_of device o = Dict.get_or device default_log o.logs

unfoldable pub set_log : String → DeviceLog → Outbox → Outbox
set_log device log o = record o { logs = Dict.insert device log o.logs }

unfoldable pub set_record : String → WriteRecord → Outbox → Outbox
set_record id r o = record o { records = Dict.insert id r o.records }

unfoldable pub set_batch : String → Batch → Outbox → Outbox
set_batch id b o = record o { batches = Dict.insert id b o.batches }

unfoldable pub device_of : String → Outbox → Option String
device_of id o = elim (Dict.get id o.records) [ none ↦ none | some r ↦ some r.device ]

-- What the outbox takes from the `chrono` crate: instants, parsed from and rendered to text, the
-- conversion of a duration, and instants compared.
pub record Chrono : Type 1 where
  pub Instant : Type 0
  pub parse_from_rfc3339 : String → Option Instant
  pub to_rfc3339 : Instant → String
  pub from_std : ℕ → Option ℕ
  pub plus : Instant → ℕ → Instant
  pub is_after : Instant → Instant → Bool

-- The given timestamp where either conversion fails.
unfoldable pub delay_from : Chrono → Timestamp → ℕ → Timestamp
delay_from c at delay = elim (c.parse_from_rfc3339 at) [
  | none ↦ at
  | some parsed ↦ elim (c.from_std delay) [ none ↦ at | some d ↦ c.to_rfc3339 (c.plus parsed d) ]
]

-- False where any conversion fails.
unfoldable pub elapsed_past : Chrono → Timestamp → ℕ → Timestamp → Bool
elapsed_past c armed_at timeout now = elim (c.parse_from_rfc3339 armed_at) [
  | none ↦ false
  | some armed ↦ elim (c.parse_from_rfc3339 now) [
    | none ↦ false
    | some present ↦ elim (c.from_std timeout) [
      | none ↦ false
      | some t ↦ c.is_after present (c.plus armed t)
    ]
  ]
]
