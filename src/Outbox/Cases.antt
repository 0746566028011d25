-- ===== src/Outbox/Cases.antt =====
-- The ways through each operation of the outbox, as one rule of case analysis for each.
use sismatic.Common.{
  arith, String, ◌≡◌, true, false, Option, none, some, inl, inr, length, eqb, str_lt, Bool-cases,
  Option-cases,
}
use sismatic.Common.Dict
use sismatic.Api.{WriteRecord, Timestamp, Acceptance, is_in_flight}
use sismatic.Store.Policy.{Result, ok, err, Submission, SubmitError, malformed, Outcome, Claim}
use sismatic.Outbox.State.{Outbox, Chrono, Batch, device_of}
use sismatic.Outbox.Submit.{existing_row, replay, admit_and_enqueue, submit}
use sismatic.Outbox.Drain.{
  WriteError, BatchStep, wait, head_of, claim_head, claim_due, claim_next, as_one, act, step_gate,
  step_batch,
}
use sismatic.Outbox.Settle.{settle_row, settle}

pub submit_cases {ℓ} :
    (P : Result Acceptance SubmitError × Outbox → Type ℓ) (s : Submission) (o : Outbox)
    → ((message : String) → P (err (malformed message), o))
    → ((first : WriteRecord) → existing_row s o ≡ some first → P (ok (replay first o), o))
    → (length s.ids ≡ length s.targets → existing_row s o ≡ none → P (admit_and_enqueue s o))
    → P (submit s o)
unfolding submit
submit_cases P s o refused replayed fresh = elim (Bool-cases (eqb (length s.targets) 0)) [
  | inl e ↦ rw (e, submit) (refused _)
  | inr e ↦
      rw (e, submit)
        (elim (Bool-cases (eqb (length s.ids) (length s.targets))) [
          | inr f ↦ rw f (refused _)
          | inl f ↦ rw f (elim (Option-cases (existing_row s o)) [
            | inl g ↦ rw g (fresh (ground arith) g)
            | inr (first, g) ↦ rw g (replayed first g)
          ])
        ])
]

pub claim_next_cases {ℓ} :
    (P : Result (Option Claim) WriteError × Outbox → Type ℓ) (c : Chrono) (device : String)
    (at : Timestamp) (o : Outbox)
    → P (ok none, o)
    → ((e : WriteError) → P (err e, o))
    → ((id : String) (r : WriteRecord)
        → head_of device o ≡ some id
        → Dict.get id o.records ≡ some r
        → str_lt at r.not_before ≡ false
        → P (claim_due c r device at o))
    → P (claim_next c device at o)
unfolding claim_next
claim_next_cases P c device at o nothing broken due = elim (Option-cases (head_of device o)) [
  | inl e ↦ rw (e, claim_next) nothing
  | inr (id, e) ↦ elim (Option-cases (Dict.get id o.records)) [
    | inl f ↦ rw (e, f, claim_next) (broken _)
    | inr (r, f) ↦
        rw (e, f, claim_next)
          (elim (Bool-cases (str_lt at r.not_before)) [
            | inl early ↦ rw early nothing
            | inr now ↦ rw now (due id r e f now)
          ])
  ]
]

pub claim_due_cases {ℓ} :
    (P : Result (Option Claim) WriteError × Outbox → Type ℓ) (c : Chrono) (r : WriteRecord)
    (device : String) (at : Timestamp) (o : Outbox)
    → (r.batch ≡ none → P (as_one (claim_head device at o).0, (claim_head device at o).1))
    → ((b : String)
        → r.batch ≡ some b
        → P (act (step_batch c b device at o).0 b device at (step_batch c b device at o).1))
    → P (claim_due c r device at o)
unfolding claim_due
claim_due_cases P c r device at o single batched = elim (Option-cases r.batch) [
  | inl e ↦ rw (e, claim_due) (single e)
  | inr (b, e) ↦ rw (e, claim_due) (batched b e)
]

pub step_batch_cases {ℓ} :
    (P : BatchStep × Outbox → Type ℓ) (c : Chrono) (batch_id device : String) (at : Timestamp)
    (o : Outbox)
    → (Dict.get batch_id o.batches ≡ none → P (wait, o))
    → ((b : Batch)
        → Dict.get batch_id o.batches ≡ some b
        → P (step_gate c b.gate b batch_id device at o))
    → P (step_batch c batch_id device at o)
unfolding step_batch
step_batch_cases P c batch_id device at o gone there =
    elim (Option-cases (Dict.get batch_id o.batches)) [
      | inl e ↦ rw (e, step_batch) (gone e)
      | inr (b, e) ↦ rw (e, step_batch) (there b e)
    ]

pub settle_cases {ℓ} :
    (P : Result (Unit {0}) WriteError × Outbox → Type ℓ) (c : Chrono) (id : String)
    (outcome : Outcome) (at : Timestamp) (o : Outbox)
    → ((e : WriteError) → P (err e, o))
    → ((r : WriteRecord)
        → Dict.get id o.records ≡ some r
        → is_in_flight r.status ≡ true
        → P (ok tt, settle_row c id r.device r outcome at o))
    → P (settle c id outcome at o)
unfolding settle device_of
settle_cases P c id outcome at o broken settled = elim (Option-cases (Dict.get id o.records)) [
  | inl e ↦ rw (e, settle, device_of) (broken _)
  | inr (r, e) ↦
      rw (e, settle, device_of)
        (rw e (elim (Bool-cases (is_in_flight r.status)) [
          | inl flying ↦ rw flying (settled r e flying)
          | inr past ↦ rw past (broken _)
        ]))
]
