-- ===== src/Outbox/Release.antt =====
-- When the writes of a batch are dispatched: together, or alone after the others.
use sismatic.Common.{
  String, ◌≡◌, refl, true, ◌⊎◌, inl, inr, Option, none, some, List, map, arith, all,
  contains-select, same_texts, same_texts_sound, subst, Bool-cases, distinct-select,
}
use sismatic.Common.Dict
use sismatic.Api.{WriteRecord, Timestamp, Barrier, dispatch_ready, fail_batch}
use sismatic.Store.Policy.{Result, ok, err, Claim, one}
use sismatic.Outbox.State.{
  Gate, waiting, open_gate, abandoned, Batch, Outbox, Chrono, set_batch, elapsed_past,
}
use sismatic.Outbox.Submit.{in_batch}
use sismatic.Outbox.Drain.{
  WriteError, BatchStep, wait, release, fail, is_ready_for, ready_members, stepped, decide,
  on_timeout, step_gate, claim_heads, as_one, as_batch, act, claim_next,
}
use sismatic.Outbox.Cases.{claim_next_cases, claim_due_cases, step_batch_cases}
use sismatic.Outbox.Queues.{WellFormed}
use sismatic.Outbox.Claims.{set_batch-WellFormed}
use sismatic.Outbox.Rendezvous.{claim_heads_ready}
use sismatic.Outbox.Members.{MembersAreSets}

-- The barrier of a waiting batch lets these members go.
abbrev pub LetsGo : Chrono → Timestamp → Batch → List String → Type 0
LetsGo c at b ready =
    (ready ≡ b.members)
    ⊎ ((b.barrier.on_timeout ≡ dispatch_ready)
        × (elapsed_past c b.armed_at b.barrier.timeout at ≡ true))

-- The rows are those of the members that are ready, one for each, and the barrier lets them go.
abbrev pub Released : Chrono → Timestamp → Outbox → String → List WriteRecord → Type 0
Released c at o id rs =
    (b : Batch) × (Dict.get id o.batches ≡ some b)
    × (b.gate ≡ waiting)
    × (map (λ r. r.device) rs ≡ ready_members o id b at)
    × (all (in_batch id) rs ≡ true)
    × LetsGo c at b (ready_members o id b at)

one-ne-batch :
    (r : Result (Option WriteRecord) WriteError) (id : String) (rs : List WriteRecord)
    → as_one r ≡ ok (some (Claim.batch id rs))
    → ⊥
one-ne-batch (ok none) id rs e = cc
one-ne-batch (ok (some r)) id rs e = cc
one-ne-batch (err x) id rs e = cc

pub batch-ne-one :
    (b : String) (x : Result (List WriteRecord) WriteError) (r : WriteRecord)
    → as_batch b x ≡ ok (some (one r))
    → ⊥
batch-ne-one b (ok rs) r e = cc
batch-ne-one b (err x) r e = cc

pub decide_cases {ℓ} :
    (P : BatchStep → Type ℓ) (c : Chrono) (b : Batch) (ready : List String) (at : Timestamp)
    → P wait
    → (LetsGo c at b ready → P (release ready))
    → (b.barrier.on_timeout ≡ fail_batch → P (fail ready))
    → P (decide c b ready at)
unfolding decide
decide_cases P c b ready at waits goes fails = elim (Bool-cases (same_texts ready b.members)) [
  | inl full ↦ rw (full, decide) (goes (inl (same_texts_sound ready b.members full)))
  | inr short ↦
      rw (short, decide)
        (elim (Bool-cases (elapsed_past c b.armed_at b.barrier.timeout at)) [
          | inr early ↦ rw early waits
          | inl late ↦ rw late (by_policy b.barrier.on_timeout refl late)
        ])
]
  where
    by_policy :
        (policy : Barrier)
        → b.barrier.on_timeout ≡ policy
        → elapsed_past c b.armed_at b.barrier.timeout at ≡ true
        → P (on_timeout policy ready)
    by_policy dispatch_ready e late = goes (inr (e, late))
    by_policy fail_batch e late = fails e

same_claim :
    (b id : String) (x : Result (List WriteRecord) WriteError) (rows rs : List WriteRecord)
    → as_batch b x ≡ ok (some (Claim.batch id rs))
    → x ≡ ok rows
    → (b ≡ id) × (rows ≡ rs)
same_claim b id (ok l) rows rs e f = (cc, cc)
same_claim b id (err x) rows rs e f = cc

module _ {o : Outbox} (w : WellFormed o) (sets : MembersAreSets o) (c : Chrono) (at : Timestamp)
    (batch : String) where
  waiting-Released :
      (b : Batch)
      → Dict.get batch o.batches ≡ some b
      → b.gate ≡ waiting
      → (b' : Batch) (id : String) (rs : List WriteRecord)
      → LetsGo c at b (ready_members o batch b at)
      → as_batch batch (claim_heads (ready_members o batch b at) at (set_batch batch b' o)).0
        ≡ ok (some (Claim.batch id rs))
      → Released c at o id rs
  unfolding ready_members
  waiting-Released b e g b' id rs go claim =
      let ready = ready_members o batch b at in
      let (rows, taken, devices, mine) =
        claim_heads_ready batch at ready (set_batch-WellFormed w batch b')
          (distinct-select (is_ready_for o batch at) b.members (sets batch b e))
          (λ j m.
            unfold set_batch is_ready_for in
            ground (arith, contains-select (is_ready_for o batch at) j b.members)) in
      let (same_id, same_rows) = same_claim batch id _ rows rs claim taken in
      subst (λ i. Released c at o i rs) same_id
        (subst (λ l. Released c at o batch l) same_rows (b, e, g, devices, mine, go))

  gated-Released :
      (b : Batch) (gate : Gate) (device : String)
      → Dict.get batch o.batches ≡ some b
      → b.gate ≡ gate
      → (id : String) (rs : List WriteRecord)
      → (act
          (step_gate c gate b batch device at o).0
          batch
          device
          at
          (step_gate c gate b batch device at o).1).0
        ≡ ok (some (Claim.batch id rs))
      → Released c at o id rs
  unfolding step_gate act
  gated-Released b open_gate device e g id rs claim = absurd (one-ne-batch _ id rs claim)
  gated-Released b abandoned device e g id rs claim = absurd (cc)
  gated-Released b waiting device e g id rs claim =
      decide_cases
        (λ s.
          (act s batch device at (set_batch batch (stepped b (ready_members o batch b at) s) o)).0
            ≡ ok (some (Claim.batch id rs))
          → Released c at o id rs)
        c b (ready_members o batch b at) at (λ f. absurd (cc))
        (λ go f. waiting-Released b e g _ id rs go f) (λ _ f. absurd (cc)) claim

-- In an outbox whose queues are well formed and whose batches' members are sets, a claim that comes
-- back as a batch is a rendezvous that held: its barrier was still waiting; the rows are rows of
-- the batch, one of each member whose row was at the head of its queue and due, and of no other;
-- and those are all the members, unless the barrier lets the ready ones go on timeout and its time
-- has passed.
pub claim_next-Released :
    (c : Chrono) (device : String) (at : Timestamp) (o : Outbox) (id : String)
    (rs : List WriteRecord)
    → WellFormed o
    → MembersAreSets o
    → (claim_next c device at o).0 ≡ ok (some (Claim.batch id rs))
    → Released c at o id rs
claim_next-Released c device at o id rs w sets =
    claim_next_cases (λ s. s.0 ≡ ok (some (Claim.batch id rs)) → Released c at o id rs) c device at
      o (λ e. absurd (cc)) (λ _ e. absurd (cc))
      (λ _ r _ _ _.
        claim_due_cases (λ s. s.0 ≡ ok (some (Claim.batch id rs)) → Released c at o id rs) c r
          device at o (λ _ e. absurd (one-ne-batch _ id rs e))
          (λ b _.
            step_batch_cases
              (λ s.
                (act s.0 b device at s.1).0 ≡ ok (some (Claim.batch id rs)) → Released c at o id rs)
              c b device at o (λ _ e. unfold act in absurd (cc))
              (λ entry found.
                gated-Released w sets c at b entry entry.gate device found refl id rs)))
