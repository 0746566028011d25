-- ===== src/Outbox/Settling.antt =====
-- Settling a row and observing a device keep every queue well formed.
use sismatic.Common.{
  String, ◌≡◌, refl, true, false, Option, none, some, ◌∷◌, eq_refl, arith, contains, inl, inr, ltb,
  Bool-cases, Option-cases,
}
use sismatic.Common.Dict
use sismatic.Common.Dict.{Dict, get-insert}
use sismatic.Api.{
  WriteRecord, Timestamp, WriteStatus, pending, in_flight, is_pending, is_in_flight, RecordingState,
}
use sismatic.Store.Policy.{Outcome}
use sismatic.Outbox.State.{set_batch, Batch, DeviceLog, Outbox, Chrono, set_log, set_record}
use sismatic.Outbox.Settle.{
  change_batch, not_ready, not_member, retried, settle_row, settle, observe,
}
use sismatic.Outbox.Cases.{settle_cases}
use sismatic.Outbox.Queues.{
  is_queued, well_queued, queue_of, WellFormed, WellFormed-move, WellFormed-set_log,
  well_queued-insert, Absent, Absent-of_not_queued,
}

not_pending : (s : WriteStatus) → is_in_flight s ≡ true → is_pending s ≡ false
not_pending in_flight h = refl
not_pending _ h = ground arith

-- A row in flight stands in no queue.
in_flight-Absent :
    {o : Outbox}
    → WellFormed o
    → (id : String) (r : WriteRecord) → Dict.get id o.records ≡ some r
    → is_in_flight r.status ≡ true
    → Absent id o
unfolding is_queued
in_flight-Absent w id r found flying =
    Absent-of_not_queued w id (λ device. ground (arith, not_pending r.status))

-- A batch may change under a record's change.
record_over_batch :
    (o : Outbox) (id : String) (r : WriteRecord) (f : Batch → Batch) (b : Option String)
    → WellFormed (set_record id r o)
    → WellFormed (set_record id r (change_batch f b o))
unfolding set_record set_batch
record_over_batch o id r f none w = w
record_over_batch o id r f (some b) w = elim (Option-cases (Dict.get b o.batches)) [
  | inl e ↦ rw (e, change_batch) w
  | inr (entry, e) ↦ rw (e, change_batch) (record { queues = w.queues })
]

module _ {o : Outbox} (w : WellFormed o) (id : String) (r : WriteRecord)
    (found : Dict.get id o.records ≡ some r) (flying : is_in_flight r.status ≡ true) where
  absent_here : contains id (queue_of r.device o) ≡ false
  absent_here = in_flight-Absent w id r found flying r.device

  -- The queue keeps its ids where the row is settled for good.
  settled-WellFormed :
      (r' : WriteRecord) (log : DeviceLog)
      → log.queue ≡ queue_of r.device o
      → WellFormed (set_record id r' (set_log r.device log o))
  settled-WellFormed r' log e =
      WellFormed-move w r.device id r' log (λ other _. flying_elsewhere other)
        (rw (e, well_queued-insert o.records r.device id r' (queue_of r.device o) absent_here)
          (w.queues r.device))
    where
      flying_elsewhere : (other : String) → is_queued o.records other id ≡ false
      flying_elsewhere other = unfold is_queued in ground (arith, not_pending r.status)

  -- A retried row stands at the head of its device's queue again.
  retried-WellFormed :
      (r' : WriteRecord) (log : DeviceLog)
      → r'.device ≡ r.device
      → r'.status ≡ pending
      → log.queue ≡ id ∷ queue_of r.device o
      → WellFormed (set_record id r' (set_log r.device log o))
  retried-WellFormed r' log same waits e =
      WellFormed-move w r.device id r' log
        (λ other _. unfold is_queued in ground (arith, not_pending r.status))
        (rw e (
          unfold well_queued in
          rw (well_queued-insert o.records r.device id r' (queue_of r.device o) absent_here) (
            ground (
              arith,
              absent_here,
              w.queues r.device,
              get-insert id id r' o.records,
              eq_refl id,
              eq_refl r.device,
            ))))

  settle_row-WellFormed :
      (c : Chrono) (outcome : Outcome) (at : Timestamp)
      → WellFormed (settle_row c id r.device r outcome at o)
  unfolding settle_row
  settle_row-WellFormed c (Outcome.succeeded value) at = settled-WellFormed _ _ refl
  settle_row-WellFormed c (Outcome.failed reason) at =
      elim (Bool-cases (ltb r.attempts o.max_attempts)) [
        | inl again ↦ rw again (
            record_over_batch _ id _ (not_ready r.device) r.batch
              (retried-WellFormed (retried c r at o) _ refl refl refl))
        | inr spent ↦
            rw spent
              (record_over_batch _ id _ (not_member r.device) r.batch (settled-WellFormed _ _ refl))
      ]

pub settle-WellFormed :
    {o : Outbox}
    → WellFormed o
    → (c : Chrono) (id : String) (outcome : Outcome) (at : Timestamp)
    → WellFormed (settle c id outcome at o).1
settle-WellFormed {o} w c id outcome at =
    settle_cases (λ s. WellFormed s.1) c id outcome at o (λ _. w)
      (λ r found flying. settle_row-WellFormed w id r found flying c outcome at)

pub observe-WellFormed :
    {o : Outbox}
    → WellFormed o
    → (device : String) (observed : RecordingState) → WellFormed (observe device observed o)
unfolding observe
observe-WellFormed w device observed = WellFormed-set_log w device _ (w.queues device)
