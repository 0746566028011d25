-- ===== src/Outbox/Changes.antt =====
-- The single changes that the drain makes to a record, and what it keeps of the record map: any
-- property that each of these changes keeps.
use sismatic.Common.{
  ℕ, String, ◌≡◌, refl, true, false, Option, none, some, List, [], ◌∷◌, ap, subst, inl, inr, ◌<◌,
  Option-cases,
}
use sismatic.Common.Dict
use sismatic.Common.Dict.{Dict}
use sismatic.Api.{WriteRecord, WriteStatus, Timestamp, pending, canceled, is_pending, is_in_flight}
use sismatic.Store.Policy.{Result, ok, err, Submission}
use sismatic.Outbox.State.{
  DeviceLog, Gate, waiting, open_gate, abandoned, Batch, Outbox, Chrono, set_log, set_record,
  set_batch,
}
use sismatic.Outbox.Submit.{Row, new_record}
use sismatic.Outbox.Drain.{
  WriteError, BatchStep, wait, alone, release, fail, claimed, claim_front, claim_head, expired_row,
  fail_front, fail_head, step_gate, claim_heads, fail_heads, act, claim_next,
}
use sismatic.Outbox.Cases.{claim_next_cases, claim_due_cases, step_batch_cases}
use sismatic.Outbox.Queues.{WellFormed, queue_of, well_queued}
use sismatic.Outbox.Claims.{
  head_is_queued, queued_record, log_of_found, claim_head-WellFormed, fail_head-WellFormed,
  step_batch-WellFormed,
}

abbrev pub IsOver : WriteStatus → Type 0
IsOver s = (is_pending s ≡ false) × (is_in_flight s ≡ false)

-- One change of a record, with the state that it starts from. A row is tried again only below
-- `attempts` attempts.
pub data Change (attempts : ℕ) : WriteRecord → WriteRecord → Type 0 where
  claims :
      (at : Timestamp) (r : WriteRecord)
      → is_pending r.status ≡ true
      → Change attempts r (claimed at r)
  expires :
      (at : Timestamp) (r : WriteRecord)
      → is_pending r.status ≡ true
      → Change attempts r (expired_row at r)
  cancels :
      (reason : String) (r : WriteRecord)
      → is_pending r.status ≡ true
      → Change attempts r (record r { status = canceled reason })
  settles :
      (v : WriteStatus) (at : Timestamp) (r : WriteRecord)
      → is_in_flight r.status ≡ true
      → IsOver v
      → Change attempts r (record r { status = v; updated_at = at })
  retries :
      (t at : Timestamp) (r : WriteRecord)
      → is_in_flight r.status ≡ true
      → r.attempts < attempts
      → Change attempts r (record r { status = pending; not_before = t; updated_at = at })

-- The property of the record map is kept by each change, and by each new row.
pub record Stable (Q : Dict WriteRecord → Type 0) (attempts : ℕ) : Type 0 where
  pub changes :
      (id : String) (r r' : WriteRecord) (records : Dict WriteRecord)
      → Dict.get id records ≡ some r
      → Change attempts r r'
      → Q records
      → Q (Dict.insert id r' records)
  pub adds :
      (s : Submission) (row : Row) (records : Dict WriteRecord)
      → Dict.get row.id records ≡ none
      → Q records
      → Q (Dict.insert row.id (new_record s row) records)

module _ (Q : Dict WriteRecord → Type 0) (attempts : ℕ) (stable : Stable Q attempts) where
  claim_front-Holds :
      {o : Outbox}
      → WellFormed o
      → Q o.records
      → (device : String) (at : Timestamp) (log : DeviceLog) (queue : List String)
      → queue_of device o ≡ queue
      → Q (claim_front device at log queue o).1.records
  unfolding claim_front set_log set_record
  claim_front-Holds w h device at log [] e = h
  claim_front-Holds {o} w h device at log (id ∷ rest) e =
      let q =
        head_is_queued o.records device id rest
          (subst (λ q. well_queued o.records device q ≡ true) e (w.queues device)) in
      let (r, found, _, waits) = queued_record o.records device id q.0 in
      rw (found, claim_front)
        (stable.changes id r (claimed at r) o.records found (claims at r waits) h)

  claim_head-Holds :
      {o : Outbox}
      → WellFormed o
      → Q o.records
      → (device : String) (at : Timestamp) → Q (claim_head device at o).1.records
  unfolding claim_head
  claim_head-Holds {o} w h device at = elim (Option-cases (Dict.get device o.logs)) [
    | inl e ↦ rw (e, claim_head) h
    | inr (log, e) ↦
        rw (e, claim_head)
          (claim_front-Holds w h device at log log.queue
            (ap (λ (l : DeviceLog). l.queue) (log_of_found device o log e)))
  ]

  fail_front-Holds :
      {o : Outbox}
      → WellFormed o
      → Q o.records
      → (device : String) (at : Timestamp) (log : DeviceLog) (queue : List String)
      → queue_of device o ≡ queue
      → Q (fail_front device at log queue o).records
  unfolding fail_front set_log set_record
  fail_front-Holds w h device at log [] e = h
  fail_front-Holds {o} w h device at log (id ∷ rest) e =
      let q =
        head_is_queued o.records device id rest
          (subst (λ q. well_queued o.records device q ≡ true) e (w.queues device)) in
      let (r, found, _, waits) = queued_record o.records device id q.0 in
      rw (found, fail_front)
        (stable.changes id r (expired_row at r) o.records found (expires at r waits) h)

  fail_head-Holds :
      {o : Outbox}
      → WellFormed o
      → Q o.records
      → (device : String) (at : Timestamp) → Q (fail_head device at o).records
  unfolding fail_head
  fail_head-Holds {o} w h device at = elim (Option-cases (Dict.get device o.logs)) [
    | inl e ↦ rw (e, fail_head) h
    | inr (log, e) ↦
        rw (e, fail_head)
          (fail_front-Holds w h device at log log.queue
            (ap (λ (l : DeviceLog). l.queue) (log_of_found device o log e)))
  ]

  fail_heads-Holds :
      (members : List String) (at : Timestamp) {o : Outbox}
      → WellFormed o
      → Q o.records
      → Q (fail_heads members at o).records
  unfolding fail_heads
  fail_heads-Holds [] at w h = h
  fail_heads-Holds (member ∷ members) at {o} w h =
      fail_heads-Holds members at {o = fail_head member at o} (fail_head-WellFormed w member at)
        (fail_head-Holds w h member at)

  claim_heads-Holds :
      (members : List String) (at : Timestamp) {o : Outbox}
      → WellFormed o
      → Q o.records
      → Q (claim_heads members at o).1.records
  unfolding claim_heads
  claim_heads-Holds [] at w h = h
  claim_heads-Holds (member ∷ members) at {o} w h =
      let w' = claim_head-WellFormed w member at in
      let h' = claim_head-Holds w h member at in
      let rest = claim_heads-Holds members at {o = (claim_head member at o).1} w' h' in
      by_result (claim_head member at o).0 refl h' rest
    where
      by_result :
          (r : Result (Option WriteRecord) WriteError)
          → (claim_head member at o).0 ≡ r
          → Q (claim_head member at o).1.records
          → Q (claim_heads members at (claim_head member at o).1).1.records
          → Q (claim_heads (member ∷ members) at o).1.records
      by_result (err x) e h' rest = rw (e, claim_heads) h'
      by_result (ok a) e h' rest = rw (e, claim_heads) rest

  act-Holds :
      {o : Outbox}
      → WellFormed o
      → Q o.records
      → (step : BatchStep) (batch_id device : String) (at : Timestamp)
      → Q (act step batch_id device at o).1.records
  unfolding act
  act-Holds w h wait batch_id device at = h
  act-Holds w h alone batch_id device at = claim_head-Holds w h device at
  act-Holds w h (release members) batch_id device at = claim_heads-Holds members at w h
  act-Holds w h (fail members) batch_id device at = fail_heads-Holds members at w h

  step_gate-Holds :
      (c : Chrono) (gate : Gate) (b : Batch) (batch_id device : String) (at : Timestamp)
      (o : Outbox)
      → Q o.records
      → Q (step_gate c gate b batch_id device at o).1.records
  unfolding step_gate set_batch
  step_gate-Holds c waiting b batch_id device at o h = h
  step_gate-Holds c open_gate b batch_id device at o h = h
  step_gate-Holds c abandoned b batch_id device at o h = h

  pub claim_next-Holds :
      {o : Outbox}
      → WellFormed o
      → Q o.records
      → (c : Chrono) (device : String) (at : Timestamp) → Q (claim_next c device at o).1.records
  claim_next-Holds {o} w h c device at =
      claim_next_cases (λ s. Q s.1.records) c device at o h (λ _. h)
        (λ _ r _ _ _.
          claim_due_cases (λ s. Q s.1.records) c r device at o (λ _. claim_head-Holds w h device at)
            (λ b _.
              act-Holds (step_batch-WellFormed w c b device at)
                (step_batch_cases (λ s. Q s.1.records) c b device at o (λ _. h)
                  (λ entry _. step_gate-Holds c entry.gate entry b device at o h))
                _ b device at))
