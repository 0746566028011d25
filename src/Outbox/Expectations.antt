-- ===== src/Outbox/Expectations.antt =====
-- What a submission for a group makes the group expected to hold.
use sismatic.Common.{
  String, ◌≡◌, refl, ap, ◌∙◌, ◌&&◌, ◌==◌, eq_iff, Option, none, some, List, [], ◌∷◌, arith, inl,
  inr, Option-cases, if◌then◌else◌,
}
use sismatic.Common.Dict
use sismatic.Common.Dict.{Dict, get-insert, get-update, get-empty}
use sismatic.Api.{GroupExpectation, Acceptance}
use sismatic.Store.Policy.{Result, ok, err, Submission, SubmitError}
use sismatic.Store.Expectation.{expects}
use sismatic.Outbox.State.{Outbox, set_log, set_record, set_batch}
use sismatic.Outbox.Submit.{
  Admission, Row, rows, enqueue, enqueue_all, expect, arm, admit_all, apply_admitted,
  admit_and_enqueue, existing_row, submit,
}
use sismatic.Outbox.Queries.{expected}
use sismatic.Outbox.Cases.{submit_cases}

enqueue_all_groups :
    (s : Submission) (all : List Row) (o : Outbox) → (enqueue_all s all o).groups ≡ o.groups
unfolding enqueue_all enqueue set_log set_record
enqueue_all_groups s [] o = refl
enqueue_all_groups s (row ∷ rest) o = enqueue_all_groups s rest (enqueue s row o)

arm_groups : (s : Submission) (o : Outbox) → (arm s o).groups ≡ o.groups
unfolding arm set_batch
arm_groups s o = ground arith

-- What the submission makes the group expected to hold in the field.
abbrev pub told : Submission → String → String → Option GroupExpectation → Option GroupExpectation
told s group field before = elim s.group [
  | none ↦ before
  | some g ↦
      if (g == group) && ((expects s.intent).0 == field)
      then some (record { field = field; value = (expects s.intent).1; since = s.at })
      else before
]

expected-expect :
    (s : Submission) (o : Outbox) (group field : String)
    → expected group field (expect s o) ≡ told s group field (expected group field o)
unfolding expect expected
expected-expect s o group field = elim (Option-cases s.group) [
  | inl e ↦ rw (e, expect) refl
  | inr (g, e) ↦
      rw (e, expect)
        (let (f, v) = expects s.intent in
          let told : GroupExpectation = record { field = f; value = v; since = s.at } in
          ground (
            arith,
            get-update g group Dict.empty (Dict.insert f told) o.groups,
            get-insert f field told (Dict.get_or g Dict.empty o.groups),
            get-empty {V = GroupExpectation} field,
            eq_iff g group,
            eq_iff f field,
          ))
]

apply_admitted-expected :
    (s : Submission) (o : Outbox) (r : Result (List Admission) SubmitError) (a : Acceptance)
    (group field : String)
    → (apply_admitted s o r).0 ≡ ok a
    → expected group field (apply_admitted s o r).1 ≡ told s group field (expected group field o)
apply_admitted-expected s o (err x) a group field e = absurd (cc)
apply_admitted-expected s o (ok admitted) a group field e =
    let all = rows s.targets s.ids admitted in
    let queued = enqueue_all s all o in
    same_groups (arm s (expect s queued)) (expect s queued) (arm_groups s (expect s queued))
    ∙ expected-expect s queued group field
    ∙ ap (told s group field) (same_groups queued o (enqueue_all_groups s all o))
  where
    same_groups :
        (p q : Outbox) → p.groups ≡ q.groups → expected group field p ≡ expected group field q
    same_groups p q e = unfold expected in rw e

-- A submission that is accepted, under no key used before, makes its group expected to hold what its
-- intent asks for from its time on, in that field; nothing else that is expected changes, and
-- nothing at all for a submission that is for no group.
pub submit-expected :
    (s : Submission) (o : Outbox) (a : Acceptance) (group field : String)
    → existing_row s o ≡ none
    → (submit s o).0 ≡ ok a
    → expected group field (submit s o).1 ≡ told s group field (expected group field o)
unfolding admit_and_enqueue
submit-expected s o a group field fresh =
    submit_cases
      (λ r. r.0 ≡ ok a → expected group field r.1 ≡ told s group field (expected group field o)) s o
      (λ _ e. absurd (cc)) (λ _ e _. absurd (cc))
      (λ _ _ e.
        let r = admit_all s.intent s.targets o.logs in
        apply_admitted-expected s (record o { logs = r.1 }) r.0 a group field e
        ∙ ap (told s group field) (unfold expected in refl))
