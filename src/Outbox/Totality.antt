-- ===== src/Outbox/Totality.antt =====
-- On well-formed queues a claim never fails.
use sismatic.Common.{
  String, ◌≡◌, refl, ap, subst, true, Option, none, some, List, [], ◌∷◌, arith, inl, inr, str_lt,
  Bool-cases, Option-cases,
}
use sismatic.Common.Dict
use sismatic.Api.{WriteRecord, Timestamp}
use sismatic.Store.Policy.{Result, ok, Claim, one}
use sismatic.Outbox.State.{DeviceLog, Outbox, Chrono}
use sismatic.Outbox.Drain.{
  WriteError, BatchStep, wait, alone, release, fail, claimed, claim_front, claim_head, head_of,
  front, claim_heads, push_claim, as_one, as_batch, act, claim_due, claim_next,
}
use sismatic.Outbox.Cases.{claim_due_cases}
use sismatic.Outbox.Queues.{well_queued, queue_of, WellFormed}
use sismatic.Outbox.Claims.{
  log_of_found, head_is_queued, queued_record, claim_head-WellFormed, step_batch-WellFormed,
}

-- The result is no error.
abbrev pub Succeeds {ℓ} : {A : Type ℓ} → Result A WriteError → Type ℓ
Succeeds {A = A} r = (a : A) × (r ≡ ok a)

claim_front-Succeeds :
    {o : Outbox}
    → WellFormed o
    → (device : String) (at : Timestamp) (log : DeviceLog) (queue : List String)
    → queue_of device o ≡ queue
    → Succeeds (claim_front device at log queue o).0
unfolding claim_front
claim_front-Succeeds w device at log [] e = (none, refl)
claim_front-Succeeds {o} w device at log (id ∷ rest) e =
    let h =
      head_is_queued o.records device id rest
        (subst (λ q. well_queued o.records device q ≡ true) e (w.queues device)) in
    let (r, found, _, _) = queued_record o.records device id h.0 in
    (some (claimed at r), rw (found, claim_front))

pub claim_head-Succeeds :
    {o : Outbox}
    → WellFormed o
    → (device : String) (at : Timestamp) → Succeeds (claim_head device at o).0
unfolding claim_head
claim_head-Succeeds {o} w device at = elim (Option-cases (Dict.get device o.logs)) [
  | inl e ↦ (none, rw (e, claim_head))
  | inr (log, e) ↦
      rw (e, claim_head)
        (claim_front-Succeeds w device at log log.queue
          (ap (λ (l : DeviceLog). l.queue) (log_of_found device o log e)))
]

push_claim-Succeeds :
    (claim : Option WriteRecord) (rest : Result (List WriteRecord) WriteError)
    → Succeeds rest
    → Succeeds (push_claim claim rest)
push_claim-Succeeds none rest h = h
push_claim-Succeeds (some r) rest (rs, e) = (r ∷ rs, rw e)

claim_heads-Succeeds :
    (members : List String) (at : Timestamp) {o : Outbox}
    → WellFormed o
    → Succeeds (claim_heads members at o).0
unfolding claim_heads
claim_heads-Succeeds [] at w = ([], refl)
claim_heads-Succeeds (member ∷ members) at {o} w =
    let (claim, e) = claim_head-Succeeds w member at in
    rw (e, claim_heads)
      (push_claim-Succeeds claim _ (
        claim_heads-Succeeds members at {o = (claim_head member at o).1}
          (claim_head-WellFormed w member at)))

as_one-Succeeds : (r : Result (Option WriteRecord) WriteError) → Succeeds r → Succeeds (as_one r)
as_one-Succeeds r (none, e) = (none, rw e)
as_one-Succeeds r (some a, e) = (some (one a), rw e)

act-Succeeds :
    {o : Outbox}
    → WellFormed o
    → (step : BatchStep) (batch_id device : String) (at : Timestamp)
    → Succeeds (act step batch_id device at o).0
unfolding act
act-Succeeds w wait batch_id device at = (none, refl)
act-Succeeds w alone batch_id device at = as_one-Succeeds _ (claim_head-Succeeds w device at)
act-Succeeds w (release members) batch_id device at =
    let (rs, e) = claim_heads-Succeeds members at w in
    (some (Claim.batch batch_id rs), ap (as_batch batch_id) e)
act-Succeeds w (fail members) batch_id device at = (none, refl)

claim_due-Succeeds :
    {o : Outbox}
    → WellFormed o
    → (c : Chrono) (r : WriteRecord) (device : String) (at : Timestamp)
    → Succeeds (claim_due c r device at o).0
claim_due-Succeeds {o} w c r device at =
    claim_due_cases (λ s. Succeeds s.0) c r device at o
      (λ _. as_one-Succeeds _ (claim_head-Succeeds w device at))
      (λ b _. act-Succeeds (step_batch-WellFormed w c b device at) _ b device at)

head_record_found :
    {o : Outbox}
    → WellFormed o
    → (device id : String) → head_of device o ≡ some id
    → (r : WriteRecord) × (Dict.get id o.records ≡ some r)
head_record_found {o} w device id h = found (Dict.get device o.logs) refl h
  where
    first :
        (log : DeviceLog) (queue : List String)
        → queue_of device o ≡ queue
        → front queue ≡ some id
        → (r : WriteRecord) × (Dict.get id o.records ≡ some r)
    first log [] e f = absurd (cc)
    first log (k ∷ rest) e f =
        let q =
          head_is_queued o.records device k rest
            (subst (λ q. well_queued o.records device q ≡ true) e (w.queues device)) in
        let (r, g, _, _) = queued_record o.records device k q.0 in (r, ground arith)

    found :
        (m : Option DeviceLog)
        → Dict.get device o.logs ≡ m
        → elim m [ none ↦ none | some log ↦ front log.queue ] ≡ some id
        → (r : WriteRecord) × (Dict.get id o.records ≡ some r)
    found none e f = absurd (cc)
    found (some log) e f =
        first log log.queue (ap (λ (l : DeviceLog). l.queue) (log_of_found device o log e)) f

-- On well-formed queues a claim succeeds, with or without a write to dispatch: no queued id is
-- without a record, whichever path the claim takes.
pub claim_next-Succeeds :
    {o : Outbox}
    → WellFormed o
    → (c : Chrono) (device : String) (at : Timestamp) → Succeeds (claim_next c device at o).0
unfolding claim_next
claim_next-Succeeds {o} w c device at = elim (Option-cases (head_of device o)) [
  | inl e ↦ (none, rw (e, claim_next))
  | inr (id, e) ↦
      let (r, f) = head_record_found w device id e in
      rw (e, f, claim_next)
        (elim (Bool-cases (str_lt at r.not_before)) [
          | inl early ↦ rw early (none, refl)
          | inr due ↦ rw due (claim_due-Succeeds w c r device at)
        ])
]
