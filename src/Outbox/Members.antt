-- ===== src/Outbox/Members.antt =====
-- The members of every batch stay a set.
use sismatic.Common.{
  ℕ, String, ◌≡◌, ◌∙◌, sym, subst, true, Option, none, some, List, [], ◌∷◌, arith, distinct,
  distinct-set_of, distinct-set_remove, inl, inr, ltb, Bool-cases, Option-cases,
}
use sismatic.Common.Dict
use sismatic.Common.Dict.{Dict, get-insert, get-remove, get-empty}
use sismatic.Api.{WriteRecord, Timestamp}
use sismatic.Store.Policy.{Result, ok, err, Submission, SubmitError, Outcome, add64}
use sismatic.Outbox.State.{
  Batch, Outbox, Chrono, Gate, waiting, open_gate, abandoned, set_log, set_record, set_batch,
  with_max_attempts, set_max_attempts,
}
use sismatic.Outbox.Submit.{
  Admission, rows, new_batch, enqueue_all, expect, arm, admit_all, apply_admitted,
  admit_and_enqueue, submit,
}
use sismatic.Outbox.Cancel.{cancel_batch, group_reason, cancel_batches, cancel_queued, forget_group}
use sismatic.Outbox.Drain.{step_gate, step_batch, claim_next}
use sismatic.Outbox.Settle.{change_batch, not_ready, not_member, settle_row, settle, observe}
use sismatic.Outbox.Cases.{
  submit_cases, claim_next_cases, claim_due_cases, step_batch_cases, settle_cases,
}
use sismatic.Outbox.History.{
  Step, submits, claims, settles, observes, cancels, forgets, retunes, Reach, here, next,
}
use sismatic.Outbox.Batches.{
  claim_head_batches, act_batches, enqueue_all_batches, expect_batches, cancel_members_batches,
}

abbrev pub SetsIn : Dict Batch → Type 0
SetsIn batches =
    (id : String) (b : Batch) → Dict.get id batches ≡ some b → distinct b.members ≡ true

abbrev pub MembersAreSets : Outbox → Type 0
MembersAreSets o = SetsIn o.batches

insert-SetsIn :
    (id : String) (b : Batch) (batches : Dict Batch)
    → distinct b.members ≡ true
    → SetsIn batches
    → SetsIn (Dict.insert id b batches)
insert-SetsIn id b batches d h j b' e = ground (arith, get-insert id j b batches, h j b')

remove-SetsIn :
    (id : String) (batches : Dict Batch) → SetsIn batches → SetsIn (Dict.remove id batches)
remove-SetsIn id batches h j b e = ground (arith, get-remove id j batches, h j b)

step_gate-SetsIn :
    (c : Chrono) (gate : Gate) (b : Batch) (batch_id device : String) (at : Timestamp) (o : Outbox)
    → distinct b.members ≡ true
    → MembersAreSets o
    → MembersAreSets (step_gate c gate b batch_id device at o).1
unfolding step_gate set_batch
step_gate-SetsIn c open_gate b batch_id device at o d h = h
step_gate-SetsIn c abandoned b batch_id device at o d h = h
step_gate-SetsIn c waiting b batch_id device at o d h = insert-SetsIn batch_id _ o.batches d h

claim_next-SetsIn :
    (c : Chrono) (device : String) (at : Timestamp) (o : Outbox)
    → MembersAreSets o
    → MembersAreSets (claim_next c device at o).1
claim_next-SetsIn c device at o h =
    claim_next_cases (λ s. MembersAreSets s.1) c device at o h (λ _. h)
      (λ id r _ _ _.
        claim_due_cases (λ s. MembersAreSets s.1) c r device at o
          (λ _. subst SetsIn (sym (claim_head_batches device at o)) h)
          (λ b _.
            let s = step_batch c b device at o in
            subst SetsIn (sym (act_batches s.0 b device at s.1)) (
              step_batch_cases (λ r. MembersAreSets r.1) c b device at o (λ _. h)
                (λ entry e. step_gate-SetsIn c entry.gate entry b device at o (h b entry e) h))))

arm-SetsIn : (s : Submission) (o : Outbox) → MembersAreSets o → MembersAreSets (arm s o)
unfolding arm set_batch
arm-SetsIn s o h = elim (Option-cases s.batch) [
  | inl e ↦ rw (e, arm) h
  | inr (b, e) ↦ rw (e, arm) (insert-SetsIn b (new_batch s) o.batches (distinct-set_of s.targets) h)
]

apply_admitted-SetsIn :
    (s : Submission) (o : Outbox) (r : Result (List Admission) SubmitError)
    → MembersAreSets o
    → MembersAreSets (apply_admitted s o r).1
apply_admitted-SetsIn s o (err e) h = h
apply_admitted-SetsIn s o (ok admitted) h =
    let all = rows s.targets s.ids admitted in
    arm-SetsIn s (expect s (enqueue_all s all o))
      (subst SetsIn (sym (expect_batches s (enqueue_all s all o) ∙ enqueue_all_batches s all o)) h)

submit-SetsIn : (s : Submission) (o : Outbox) → MembersAreSets o → MembersAreSets (submit s o).1
unfolding admit_and_enqueue
submit-SetsIn s o h =
    submit_cases (λ r. MembersAreSets r.1) s o (λ _. h) (λ _ _. h)
      (λ _ _.
        let a = admit_all s.intent s.targets o.logs in
        apply_admitted-SetsIn s (record o { logs = a.1 }) a.0 h)

change_batch-SetsIn :
    (f : Batch → Batch) (b : Option String) (o : Outbox)
    → ((entry : Batch) → distinct entry.members ≡ true → distinct (f entry).members ≡ true)
    → MembersAreSets o
    → MembersAreSets (change_batch f b o)
unfolding set_batch
change_batch-SetsIn f none o k h = h
change_batch-SetsIn f (some b) o k h = elim (Option-cases (Dict.get b o.batches)) [
  | inl e ↦ rw (e, change_batch) h
  | inr (entry, e) ↦
      rw (e, change_batch) (insert-SetsIn b (f entry) o.batches (k entry (h b entry e)) h)
]

settle_row-SetsIn :
    (c : Chrono) (id device : String) (r : WriteRecord) (outcome : Outcome) (at : Timestamp)
    → (o : Outbox) → MembersAreSets o
    → MembersAreSets (settle_row c id device r outcome at o)
unfolding settle_row set_record set_log
settle_row-SetsIn c id device r (Outcome.succeeded value) at o h = h
settle_row-SetsIn c id device r (Outcome.failed reason) at o h =
    elim (Bool-cases (ltb r.attempts o.max_attempts)) [
      | inl again ↦ rw again (change_batch-SetsIn (not_ready device) r.batch _ (λ _ d. d) h)
      | inr spent ↦ rw spent (
          change_batch-SetsIn (not_member device) r.batch _
            (λ entry d. distinct-set_remove device entry.members d) h)
    ]

settle-SetsIn :
    (c : Chrono) (id : String) (outcome : Outcome) (at : Timestamp) (o : Outbox)
    → MembersAreSets o
    → MembersAreSets (settle c id outcome at o).1
settle-SetsIn c id outcome at o h =
    settle_cases (λ s. MembersAreSets s.1) c id outcome at o (λ _. h)
      (λ r _ _. settle_row-SetsIn c id r.device r outcome at o h)

cancel_batches-SetsIn :
    (reason : String) (batches : List String) (o : Outbox) (n : ℕ)
    → MembersAreSets o
    → MembersAreSets (cancel_batches reason batches (o, n)).0
unfolding cancel_batches
cancel_batches-SetsIn reason [] o n h = h
cancel_batches-SetsIn reason (batch ∷ batches) o n h =
    let next = cancel_batch batch reason o in
    cancel_batches-SetsIn reason batches next.0 (add64 n next.1) one_batch
  where
    one_batch : MembersAreSets (cancel_batch batch reason o).0
    one_batch = elim (Option-cases (Dict.get batch o.batches)) [
      | inl e ↦ unfold cancel_batch in rw (e, cancel_batch) h
      | inr (entry, e) ↦
          unfold cancel_batch in
          rw (e, cancel_batch)
            (subst SetsIn (sym (cancel_members_batches batch (group_reason reason) entry.members _))
              (remove-SetsIn batch o.batches h))
    ]

cancel_queued-SetsIn :
    (device reason : String) (o : Outbox)
    → MembersAreSets o
    → MembersAreSets (cancel_queued device reason o).0
unfolding cancel_queued set_log
cancel_queued-SetsIn device reason o h = elim (Option-cases (Dict.get device o.logs)) [
  | inl e ↦ rw (e, cancel_queued) h
  | inr (log, e) ↦ rw (e, cancel_queued) (cancel_batches-SetsIn reason _ _ _ h)
]

Step-SetsIn : {c : Chrono} {o o' : Outbox} → Step c o o' → MembersAreSets o → MembersAreSets o'
unfolding observe forget_group set_max_attempts set_log
Step-SetsIn (submits o s _ _) h = submit-SetsIn s o h
Step-SetsIn {c} (claims o device at) h = claim_next-SetsIn c device at o h
Step-SetsIn {c} (settles o id outcome at) h = settle-SetsIn c id outcome at o h
Step-SetsIn (observes o device s) h = h
Step-SetsIn (cancels o device reason) h = cancel_queued-SetsIn device reason o h
Step-SetsIn (forgets o group) h = h
Step-SetsIn (retunes o n) h = h

Reach-SetsIn : {c : Chrono} {o o' : Outbox} → Reach c o o' → MembersAreSets o → MembersAreSets o'
Reach-SetsIn here h = h
Reach-SetsIn (next r s) h = Step-SetsIn s (Reach-SetsIn r h)

-- After any history from an empty outbox, whose submissions bring new and different ids, the
-- members of every batch are a set.
pub Reach-MembersAreSets :
    (c : Chrono) (n : ℕ) (o : Outbox) → Reach c (with_max_attempts n) o → MembersAreSets o
unfolding with_max_attempts
Reach-MembersAreSets c n o r = Reach-SetsIn r (λ j b e. absurd (cc (get-empty {V = Batch} j, e)))
