-- ===== src/Relay/Landing.antt =====
-- Settling a row takes it out of flight, and keeps the histories.
use sismatic.Common.{
  String, ◌≡◌, refl, ap, ◌∙◌, Bool, false, Option, none, some, ◌==◌, eq_iff, eq_refl, arith, ltb,
  inl, inr, Bool-cases, Option-cases, if◌then◌else◌,
}
use sismatic.Common.Dict
use sismatic.Common.Dict.{Dict, get-insert}
use sismatic.Api.{WriteRecord, Timestamp, is_in_flight}
use sismatic.Store.Policy.{Outcome}
use sismatic.Outbox.State.{
  DeviceLog, Outbox, Chrono, log_of, set_log, set_record, set_batch, device_of, Batch,
}
use sismatic.Outbox.Settle.{settle, settle_row, change_batch, not_ready, not_member}
use sismatic.Outbox.Cases.{settle_cases}
use sismatic.Outbox.Queues.{log_of-set_log}
use sismatic.Outbox.Changing.{change_batch_records}

-- The id's record is in flight.
abbrev pub flying : String → Dict WriteRecord → Bool
flying id records = elim (Dict.get id records) [ none ↦ false | some r ↦ is_in_flight r.status ]

landed :
    (id j : String) (r : WriteRecord) (records : Dict WriteRecord)
    → is_in_flight r.status ≡ false
    → flying j (Dict.insert id r records) ≡ (if id == j then false else flying j records)
landed id j r records e = ground (arith, get-insert id j r records)

change_batch_logs :
    (f : Batch → Batch) (b : Option String) (o : Outbox) → (change_batch f b o).logs ≡ o.logs
unfolding set_batch
change_batch_logs f none o = refl
change_batch_logs f (some b) o = elim (Option-cases (Dict.get b o.batches)) [
  | inl e ↦ rw (e, change_batch)
  | inr (entry, e) ↦ rw (e, change_batch)
]

-- Settling leaves the settled row out of flight, and takes no other row into it.
settle_row_lands :
    (c : Chrono) (id j : String) (r : WriteRecord) (outcome : Outcome) (at : Timestamp) (o : Outbox)
    → flying j (settle_row c id r.device r outcome at o).records
      ≡ (if id == j then false else flying j o.records)
unfolding settle_row set_record set_log
settle_row_lands c id j r (Outcome.succeeded value) at o = landed id j _ o.records refl
settle_row_lands c id j r (Outcome.failed reason) at o =
    elim (Bool-cases (ltb r.attempts o.max_attempts)) [
      | inl again ↦
          rw (again, change_batch_records (not_ready r.device) r.batch)
            (landed id j _ o.records refl)
      | inr spent ↦
          rw (spent, change_batch_records (not_member r.device) r.batch)
            (landed id j _ o.records refl)
    ]

pub kept_history :
    (k device : String) (log : DeviceLog) (o : Outbox)
    → log.history ≡ (log_of k o).history
    → (log_of device (set_log k log o)).history ≡ (log_of device o).history
kept_history k device log o e = ground (arith, log_of-set_log k device log o, eq_iff k device)

-- Settling keeps each device's history of rows.
settle_row_history :
    (c : Chrono) (id device : String) (r : WriteRecord) (outcome : Outcome) (at : Timestamp)
    (o : Outbox)
    → (log_of device (settle_row c id r.device r outcome at o)).history ≡ (log_of device o).history
unfolding settle_row set_record
settle_row_history c id device r (Outcome.succeeded value) at o =
    ground (arith, log_of-set_log r.device device (log_of r.device o) o, eq_iff r.device device)
settle_row_history c id device r (Outcome.failed reason) at o =
    elim (Bool-cases (ltb r.attempts o.max_attempts)) [
      | inl again ↦
          rw (again, change_batch_logs (not_ready r.device) r.batch)
            (kept_history r.device device _ o refl)
      | inr spent ↦
          rw (spent, change_batch_logs (not_member r.device) r.batch)
            (kept_history r.device device _ o refl)
    ]

module _ (c : Chrono) (id : String) (outcome : Outcome) (at : Timestamp) (o : Outbox) where
  pub settle_others :
      (j : String)
      → flying j o.records ≡ false
      → flying j (settle c id outcome at o).1.records ≡ false
  settle_others j e =
      settle_cases (λ s. flying j s.1.records ≡ false) c id outcome at o (λ _. e)
        (λ r found up. settle_row_lands c id j r outcome at o ∙ ground (arith, e))

  pub settle_lands : flying id (settle c id outcome at o).1.records ≡ false
  settle_lands = elim (Option-cases (Dict.get id o.records)) [
    | inl e ↦ settle_others id (ground (arith, e))
    | inr (r, e) ↦ elim (Bool-cases (is_in_flight r.status)) [
      | inr past ↦ settle_others id (ground (arith, e, past))
      | inl up ↦
          let done : (settle c id outcome at o).1 ≡ settle_row c id r.device r outcome at o =
            unfold settle device_of in ground (arith, e, up) in
          ap (λ (p : Outbox). flying id p.records) done
          ∙ settle_row_lands c id id r outcome at o
          ∙ ground (arith, eq_refl id)
    ]
  ]

  pub settle_history :
      (device : String)
      → (log_of device (settle c id outcome at o).1).history ≡ (log_of device o).history
  settle_history device =
      settle_cases (λ s. (log_of device s.1).history ≡ (log_of device o).history) c id outcome at o
        (λ _. refl) (λ r found up. settle_row_history c id device r outcome at o)
