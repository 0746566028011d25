-- ===== src/Outbox/Settle.antt =====
-- crates/sismatic-store-memory/src/outbox.rs: settling a claimed row, and observing a device.
use sismatic.Common.{◌*◌, String, Option, none, some, ◌∷◌, ltb, set_remove, if◌then◌else◌}
use sismatic.Common.Dict
use sismatic.Api.{WriteRecord, Timestamp, RecordingState, pending, WriteStatus, is_in_flight}
use sismatic.Store.Policy.{
  Result, ok, err, Outcome, verb_of, rollback, reconcile, opens_recording, add64,
}
use sismatic.Outbox.State.{
  Batch, Outbox, Chrono, log_of, set_log, set_record, set_batch, device_of, delay_from,
}
use sismatic.Outbox.Drain.{WriteError, backend}

-- `record.batch.as_ref().and_then(|b| state.batches.get_mut(b))`, and a change of what it finds.
abbrev pub change_batch : (Batch → Batch) → Option String → Outbox → Outbox
change_batch f none o = o
change_batch f (some b) o = elim (Dict.get b o.batches) [
  | none ↦ o
  | some entry ↦ set_batch b (f entry) o
]

abbrev pub not_ready : String → Batch → Batch
not_ready device b = record b { ready = set_remove device b.ready }

abbrev pub not_member : String → Batch → Batch
not_member device b = record b {
  members = set_remove device b.members;
  ready = set_remove device b.ready;
}

abbrev pub retried : Chrono → WriteRecord → Timestamp → Outbox → WriteRecord
retried c r at o = record r {
  status = pending;
  not_before = delay_from c at (o.backoff * r.attempts);
  updated_at = at;
}

unfoldable pub settle_row :
    Chrono → String → String → WriteRecord → Outcome → Timestamp → Outbox → Outbox
settle_row c id device r (Outcome.succeeded value) at o =
    set_record id (record r { status = WriteStatus.succeeded value; updated_at = at })
      (set_log device (log_of device o) o)
settle_row c id device r (Outcome.failed reason) at o =
    let log = log_of device o in
    if ltb r.attempts o.max_attempts
    then set_record id (retried c r at o) (
        change_batch (not_ready device) r.batch
          (set_log device (record log { queue = id ∷ log.queue }) o))
    else set_record id (record r { status = WriteStatus.failed reason; updated_at = at })
        (change_batch (not_member device) r.batch (
          set_log device
            (record log {
              desired_recording_state = rollback log.desired_recording_state (verb_of r.intent);
            })
            o))

unfoldable pub settle :
    Chrono → String → Outcome → Timestamp → Outbox → Result (Unit {0}) WriteError × Outbox
settle c id outcome at o = elim (device_of id o) [
  | none ↦ (err (backend "settling an unknown write"), o)
  | some device ↦ elim (Dict.get id o.records) [
    | none ↦ (err (backend "settling an unknown write"), o)
    | some r ↦
        if is_in_flight r.status
        then (ok tt, settle_row c id device r outcome at o)
        else (err (backend "settling a write that was not in flight"), o)
  ]
]

unfoldable pub observe : String → RecordingState → Outbox → Outbox
observe device observed o =
    let log = log_of device o in
    let after = reconcile log.desired_recording_state observed in
    set_log device
      (record log {
        epoch =
            if opens_recording log.desired_recording_state after
            then add64 log.epoch 1
            else log.epoch;
        desired_recording_state = after;
      })
      o
