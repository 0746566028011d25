-- ===== src/Outbox/Queries.antt =====
-- crates/sismatic-store-memory/src/outbox.rs: the `WriteLog` and `GroupState` reads.
use sismatic.Common.{String, Option, none, some, List, [], reverse, collect, select}
use sismatic.Common.Dict
use sismatic.Common.Dict.{Dict}
use sismatic.Api.{WriteRecord, DeviceDesiredRecordingState, GroupExpectation, idle, is_in_flight}
use sismatic.Outbox.State.{Outbox}

unfoldable pub write : String → Outbox → Option WriteRecord
write id o = Dict.get id o.records

-- Newest first.
unfoldable pub writes_for : String → Outbox → List WriteRecord
writes_for device o = elim (Dict.get device o.logs) [
  | none ↦ []
  | some log ↦ collect (λ id. Dict.get id o.records) (reverse log.history)
]

unfoldable pub desired_recording_state : String → Outbox → DeviceDesiredRecordingState
desired_recording_state device o = elim (Dict.get device o.logs) [
  | none ↦ record { desired_recording_state = idle; epoch = 0 }
  | some log ↦ record { desired_recording_state = log.desired_recording_state; epoch = log.epoch }
]

unfoldable pub expected : String → String → Outbox → Option GroupExpectation
expected group field o = elim (Dict.get group o.groups) [
  | none ↦ none
  | some fields ↦ Dict.get field fields
]

unfoldable pub expected_all : String → Outbox → List GroupExpectation
expected_all group o = elim (Dict.get group o.groups) [
  | none ↦ []
  | some fields ↦ Dict.values fields
]

unfoldable pub in_flight_rows : String → Outbox → List WriteRecord
in_flight_rows device o = elim (Dict.get device o.logs) [
  | none ↦ []
  | some log ↦
      select (λ r. is_in_flight r.status) (collect (λ id. Dict.get id o.records) log.history)
]
