-- ===== src/Outbox/Claims.antt =====
-- The drain keeps every queue well formed, and never meets a queued id without a record.
use sismatic.Common.{
  String, ◌≡◌, refl, ap, subst, true, false, some, List, [], ◌∷◌, eq_iff, arith, contains, inl, inr,
  Option-cases,
}
use sismatic.Common.Dict
use sismatic.Common.Dict.{Dict, get-insert}
use sismatic.Api.{WriteRecord, Timestamp, is_pending}
use sismatic.Outbox.State.{
  DeviceLog, Gate, waiting, open_gate, abandoned, Batch, Outbox, Chrono, log_of, set_log,
  set_record, set_batch,
}
use sismatic.Outbox.Drain.{
  BatchStep, wait, alone, release, fail, claimed, claim_front, claim_head, expired_row, fail_front,
  fail_head, step_gate, step_batch, claim_heads, fail_heads, act, claim_due, claim_next,
}
use sismatic.Outbox.Cases.{claim_next_cases, claim_due_cases, step_batch_cases}
use sismatic.Outbox.Queues.{
  is_queued, well_queued, queue_of, WellFormed, WellFormed-move, well_queued-insert,
  is_queued_elsewhere,
}

-- What a well-formed queue says of its head.
pub head_is_queued :
    (records : Dict WriteRecord) (device id : String) (rest : List String)
    → well_queued records device (id ∷ rest) ≡ true
    → (is_queued records device id ≡ true)
      × (contains id rest ≡ false)
      × (well_queued records device rest ≡ true)
unfolding well_queued
head_is_queued records device id rest h = ground arith

pub queued_record :
    (records : Dict WriteRecord) (device id : String)
    → is_queued records device id ≡ true
    → (r : WriteRecord) × (Dict.get id records ≡ some r)
      × (r.device ≡ device)
      × (is_pending r.status ≡ true)
unfolding is_queued
queued_record records device id h = elim (Option-cases (Dict.get id records)) [
  | inl absent ↦ ground arith
  | inr (r, found) ↦ (r, found, ground (arith, eq_iff r.device device), ground arith)
]

-- Taking the head away and changing its record keeps the queues well formed.
pop-WellFormed :
    {o : Outbox} (w : WellFormed o)
    → (device id : String) (rest : List String) (r : WriteRecord) (log : DeviceLog)
    → queue_of device o ≡ id ∷ rest
    → log.queue ≡ rest
    → WellFormed (set_record id r (set_log device log o))
pop-WellFormed {o} w device id rest r log e f =
    let h =
      head_is_queued o.records device id rest
        (subst (λ q. well_queued o.records device q ≡ true) e (w.queues device)) in
    WellFormed-move w device id r log
      (λ other ne. is_queued_elsewhere o.records id device other h.0 ne)
      (rw (f, well_queued-insert o.records device id r rest h.1) h.2)

-- The log that a lookup finds is the one that `log_of` reads.
pub log_of_found :
    (device : String) (o : Outbox) (log : DeviceLog)
    → Dict.get device o.logs ≡ some log
    → log_of device o ≡ log
log_of_found device o log e = ground arith

claim_front-WellFormed :
    {o : Outbox} (w : WellFormed o)
    → (device : String) (at : Timestamp) (log : DeviceLog) (queue : List String)
    → queue_of device o ≡ queue
    → WellFormed (claim_front device at log queue o).1
unfolding claim_front
claim_front-WellFormed w device at log [] e = w
claim_front-WellFormed {o} w device at log (id ∷ rest) e =
    let h =
      head_is_queued o.records device id rest
        (subst (λ q. well_queued o.records device q ≡ true) e (w.queues device)) in
    let (r, found, _, _) = queued_record o.records device id h.0 in
    rw (found, claim_front)
      (pop-WellFormed w device id rest (claimed at r) (record log { queue = rest }) e refl)

pub claim_head-WellFormed :
    {o : Outbox}
    → WellFormed o
    → (device : String) (at : Timestamp) → WellFormed (claim_head device at o).1
unfolding claim_head
claim_head-WellFormed {o} w device at = elim (Option-cases (Dict.get device o.logs)) [
  | inl e ↦ rw (e, claim_head) w
  | inr (log, e) ↦
      rw (e, claim_head)
        (claim_front-WellFormed w device at log log.queue
          (ap (λ (l : DeviceLog). l.queue) (log_of_found device o log e)))
]

fail_front-WellFormed :
    {o : Outbox} (w : WellFormed o)
    → (device : String) (at : Timestamp) (log : DeviceLog) (queue : List String)
    → queue_of device o ≡ queue
    → WellFormed (fail_front device at log queue o)
unfolding fail_front
fail_front-WellFormed w device at log [] e = w
fail_front-WellFormed {o} w device at log (id ∷ rest) e =
    let h =
      head_is_queued o.records device id rest
        (subst (λ q. well_queued o.records device q ≡ true) e (w.queues device)) in
    let (r, found, _, _) = queued_record o.records device id h.0 in
    rw (found, fail_front) (pop-WellFormed w device id rest (expired_row at r) _ e refl)

pub fail_head-WellFormed :
    {o : Outbox}
    → WellFormed o
    → (device : String) (at : Timestamp) → WellFormed (fail_head device at o)
unfolding fail_head
fail_head-WellFormed {o} w device at = elim (Option-cases (Dict.get device o.logs)) [
  | inl e ↦ rw (e, fail_head) w
  | inr (log, e) ↦
      rw (e, fail_head)
        (fail_front-WellFormed w device at log log.queue
          (ap (λ (l : DeviceLog). l.queue) (log_of_found device o log e)))
]

pub set_batch-WellFormed :
    {o : Outbox} → WellFormed o → (id : String) (b : Batch) → WellFormed (set_batch id b o)
unfolding set_batch
set_batch-WellFormed w id b = record { queues = w.queues }

step_gate-WellFormed :
    {o : Outbox} (w : WellFormed o)
    → (c : Chrono) (gate : Gate) (b : Batch) (batch_id device : String) (at : Timestamp)
    → WellFormed (step_gate c gate b batch_id device at o).1
unfolding step_gate
step_gate-WellFormed w c open_gate b batch_id device at = w
step_gate-WellFormed w c abandoned b batch_id device at = w
step_gate-WellFormed w c waiting b batch_id device at = set_batch-WellFormed w batch_id _

pub step_batch-WellFormed :
    {o : Outbox} (w : WellFormed o) (c : Chrono) (batch_id device : String) (at : Timestamp)
    → WellFormed (step_batch c batch_id device at o).1
step_batch-WellFormed {o} w c batch_id device at =
    step_batch_cases (λ s. WellFormed s.1) c batch_id device at o (λ _. w)
      (λ b _. step_gate-WellFormed w c b.gate b batch_id device at)

claim_heads-WellFormed :
    (members : List String) (at : Timestamp) {o : Outbox}
    → WellFormed o
    → WellFormed (claim_heads members at o).1
unfolding claim_heads
claim_heads-WellFormed [] at w = w
claim_heads-WellFormed (member ∷ members) at {o} w =
    let w' = claim_head-WellFormed w member at in
    ground (arith, w', claim_heads-WellFormed members at {o = (claim_head member at o).1} w')

fail_heads-WellFormed :
    (members : List String) (at : Timestamp) {o : Outbox}
    → WellFormed o
    → WellFormed (fail_heads members at o)
unfolding fail_heads
fail_heads-WellFormed [] at w = w
fail_heads-WellFormed (member ∷ members) at {o} w =
    fail_heads-WellFormed members at {o = fail_head member at o} (fail_head-WellFormed w member at)

act-WellFormed :
    {o : Outbox} (w : WellFormed o) (step : BatchStep) (batch_id device : String) (at : Timestamp)
    → WellFormed (act step batch_id device at o).1
unfolding act
act-WellFormed w wait batch_id device at = w
act-WellFormed w alone batch_id device at = claim_head-WellFormed w device at
act-WellFormed w (release members) batch_id device at = claim_heads-WellFormed members at w
act-WellFormed w (fail members) batch_id device at = fail_heads-WellFormed members at w

claim_due-WellFormed :
    {o : Outbox} (w : WellFormed o) (c : Chrono) (r : WriteRecord) (device : String)
    (at : Timestamp)
    → WellFormed (claim_due c r device at o).1
claim_due-WellFormed {o} w c r device at =
    claim_due_cases (λ s. WellFormed s.1) c r device at o (λ _. claim_head-WellFormed w device at)
      (λ b _. act-WellFormed (step_batch-WellFormed w c b device at) _ b device at)

pub claim_next-WellFormed :
    {o : Outbox}
    → WellFormed o
    → (c : Chrono) (device : String) (at : Timestamp) → WellFormed (claim_next c device at o).1
claim_next-WellFormed {o} w c device at =
    claim_next_cases (λ s. WellFormed s.1) c device at o w (λ _. w)
      (λ id r _ _ _. claim_due-WellFormed w c r device at)
