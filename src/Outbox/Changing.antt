-- ===== src/Outbox/Changing.antt =====
-- Settling, submitting and cancelling change records only by the single changes and by new rows.
use sismatic.Common.{
  ℕ, String, ◌≡◌, refl, sym, ap, ◌∙◌, true, Option, none, some, List, [], ◌∷◌, arith, subst, inl,
  inr, ◌≤◌, ltb, contains, distinct, Bool-cases, Option-cases, eq_iff, eq_refl,
}
use sismatic.Common.Dict
use sismatic.Common.Dict.{Dict, get-insert}
use sismatic.Api.{WriteRecord, Timestamp, canceled, is_pending, is_in_flight}
use sismatic.Store.Policy.{Result, ok, err, Submission, SubmitError, Outcome, add64}
use sismatic.Outbox.State.{
  DeviceLog, Batch, Outbox, Chrono, set_log, set_record, set_batch, set_max_attempts,
}
use sismatic.Outbox.Submit.{
  Admission, Row, rows, enqueue, enqueue_all, admit_all, apply_admitted, admit_and_enqueue, submit,
}
use sismatic.Outbox.Cancel.{
  Sweep, cancel_row, cancel_rows, cancel_if_pending, cancel_pending, cancel_member, cancel_members,
  cancel_batch, cancel_batches, cancel_queued, forget_group,
}
use sismatic.Outbox.Settle.{change_batch, not_ready, not_member, settle_row, observe}
use sismatic.Outbox.Cases.{submit_cases, settle_cases}
use sismatic.Outbox.Queues.{WellFormed, well_queued, well_queued-insert}
use sismatic.Outbox.Claims.{head_is_queued, queued_record, log_of_found}
use sismatic.Outbox.Submission.{AllNew, row_ids, distinct-row_ids, contains-row_ids, still-IsNew}
use sismatic.Outbox.History.{Step, submits, claims, settles, observes, cancels, forgets, retunes}
use sismatic.Outbox.Accepted.{armed_keeps}
use sismatic.Outbox.Changes.{Change, Stable, claim_next-Holds}

pub change_batch_records :
    (f : Batch → Batch) (b : Option String) (o : Outbox) → (change_batch f b o).records ≡ o.records
unfolding set_batch
change_batch_records f none o = refl
change_batch_records f (some b) o = elim (Option-cases (Dict.get b o.batches)) [
  | inl e ↦ rw (e, change_batch)
  | inr (entry, e) ↦ rw (e, change_batch)
]

module _ (Q : Dict WriteRecord → Type 0) (attempts : ℕ) (stable : Stable Q attempts) where
  settle_row-Holds :
      (c : Chrono) (id : String) (r : WriteRecord) (outcome : Outcome) (at : Timestamp) (o : Outbox)
      → Dict.get id o.records ≡ some r
      → is_in_flight r.status ≡ true
      → o.max_attempts ≤ attempts
      → Q o.records
      → Q (settle_row c id r.device r outcome at o).records
  unfolding settle_row set_record set_log
  settle_row-Holds c id r (Outcome.succeeded value) at o found flying under h =
      stable.changes id r _ o.records found (Change.settles _ at r flying (refl, refl)) h
  settle_row-Holds c id r (Outcome.failed reason) at o found flying under h =
      elim (Bool-cases (ltb r.attempts o.max_attempts)) [
        | inl again ↦
            rw (again, change_batch_records (not_ready r.device) r.batch)
              (stable.changes id r _ o.records found (Change.retries _ at r flying (ground arith))
                h)
        | inr spent ↦
            rw (spent, change_batch_records (not_member r.device) r.batch)
              (stable.changes id r _ o.records found (Change.settles _ at r flying (refl, refl)) h)
      ]

  enqueue_all-Holds :
      (s : Submission) (all : List Row) (o : Outbox)
      → distinct (row_ids all) ≡ true
      → AllNew (row_ids all) o
      → Q o.records
      → Q (enqueue_all s all o).records
  unfolding enqueue_all distinct contains
  enqueue_all-Holds s [] o d new h = h
  enqueue_all-Holds s (row ∷ rest) o d new h =
      enqueue_all-Holds s rest (enqueue s row o) (ground arith)
        (λ k m. still-IsNew s row k o (ground (arith, eq_iff row.id k)) (new k (ground arith)))
        (unfold enqueue set_record set_log in
          stable.adds s row o.records (new row.id (ground (arith, eq_refl row.id))) h)

  apply_admitted-Holds :
      (s : Submission) (o : Outbox) (r : Result (List Admission) SubmitError)
      → distinct s.ids ≡ true
      → AllNew s.ids o
      → Q o.records
      → Q (apply_admitted s o r).1.records
  apply_admitted-Holds s o (err e) d new h = h
  apply_admitted-Holds s o (ok admitted) d new h =
      let all = rows s.targets s.ids admitted in
      subst Q (sym (armed_keeps s (enqueue_all s all o)).1) (
        enqueue_all-Holds s all o (distinct-row_ids s.targets s.ids admitted d)
          (λ k m. new k (contains-row_ids k s.targets s.ids admitted m)) h)

  submit-Holds :
      (s : Submission) (o : Outbox)
      → distinct s.ids ≡ true
      → AllNew s.ids o
      → Q o.records
      → Q (submit s o).1.records
  unfolding admit_and_enqueue
  submit-Holds s o d new h =
      submit_cases (λ r. Q r.1.records) s o (λ _. h) (λ _ _. h)
        (λ _ _.
          let a = admit_all s.intent s.targets o.logs in
          apply_admitted-Holds s (record o { logs = a.1 }) a.0 d new h)

  pub cancel_rows-Holds :
      (reason device : String) (ids : List String) (s : Sweep)
      → well_queued s.records device ids ≡ true
      → Q s.records
      → Q (cancel_rows reason ids s).records
  unfolding cancel_rows
  cancel_rows-Holds reason device [] s q h = h
  cancel_rows-Holds reason device (id ∷ ids) s q h =
      let mine = head_is_queued s.records device id ids q in
      let (r, found, _, waits) = queued_record s.records device id mine.0 in
      let r' = record r { status = canceled reason } in
      let same : (cancel_row reason id s).records ≡ Dict.insert id r' s.records =
        unfold cancel_row in rw (found, cancel_row) in
      cancel_rows-Holds reason device ids (cancel_row reason id s)
        (subst (λ d. well_queued d device ids ≡ true) (sym same)
          (well_queued-insert s.records device id r' ids mine.1 ∙ mine.2))
        (subst Q (sym same)
          (stable.changes id r r' s.records found (Change.cancels reason r waits) h))

  cancel_if_pending-Holds :
      (reason id : String) (s : Outbox × ℕ)
      → Q s.0.records
      → Q (cancel_if_pending reason id s).0.records
  unfolding cancel_if_pending set_record
  cancel_if_pending-Holds reason id (o, n) h = elim (Option-cases (Dict.get id o.records)) [
    | inl e ↦ rw (e, cancel_if_pending) h
    | inr (r, e) ↦
        rw (e, cancel_if_pending)
          (elim (Bool-cases (is_pending r.status)) [
            | inl waits ↦
                rw waits (stable.changes id r _ o.records e (Change.cancels reason r waits) h)
            | inr past ↦ rw past h
          ])
  ]

  cancel_pending-Holds :
      (reason : String) (ids : List String) (s : Outbox × ℕ)
      → Q s.0.records
      → Q (cancel_pending reason ids s).0.records
  unfolding cancel_pending
  cancel_pending-Holds reason [] s h = h
  cancel_pending-Holds reason (id ∷ ids) s h =
      cancel_pending-Holds reason ids (cancel_if_pending reason id s)
        (cancel_if_pending-Holds reason id s h)

  cancel_members-Holds :
      (batch reason : String) (members : List String) (s : Outbox × ℕ)
      → Q s.0.records
      → Q (cancel_members batch reason members s).0.records
  unfolding cancel_members
  cancel_members-Holds batch reason [] s h = h
  cancel_members-Holds batch reason (member ∷ members) (o, n) h =
      cancel_members-Holds batch reason members (cancel_member batch reason member (o, n)) one
    where
      one : Q (cancel_member batch reason member (o, n)).0.records
      one = elim (Option-cases (Dict.get member o.logs)) [
        | inl e ↦ unfold cancel_member in rw (e, cancel_member) h
        | inr (log, e) ↦
            unfold cancel_member set_log in
            rw (e, cancel_member) (cancel_pending-Holds reason _ _ h)
      ]

  pub cancel_batches-Holds :
      (reason : String) (batches : List String) (s : Outbox × ℕ)
      → Q s.0.records
      → Q (cancel_batches reason batches s).0.records
  unfolding cancel_batches
  cancel_batches-Holds reason [] s h = h
  cancel_batches-Holds reason (batch ∷ batches) (o, n) h =
      let next = cancel_batch batch reason o in
      cancel_batches-Holds reason batches (next.0, add64 n next.1) one
    where
      one : Q (cancel_batch batch reason o).0.records
      one = elim (Option-cases (Dict.get batch o.batches)) [
        | inl e ↦ unfold cancel_batch in rw (e, cancel_batch) h
        | inr (entry, e) ↦
            unfold cancel_batch in
            rw (e, cancel_batch) (cancel_members-Holds batch _ entry.members _ h)
      ]

  cancel_queued-Holds :
      {o : Outbox}
      → WellFormed o
      → Q o.records
      → (device reason : String) → Q (cancel_queued device reason o).0.records
  unfolding cancel_queued set_log
  cancel_queued-Holds {o} w h device reason = elim (Option-cases (Dict.get device o.logs)) [
    | inl e ↦ rw (e, cancel_queued) h
    | inr (log, e) ↦
        let found = ap (λ (l : DeviceLog). l.queue) (log_of_found device o log e) in
        rw (e, cancel_queued)
          (cancel_batches-Holds reason _ _ (
            cancel_rows-Holds reason device log.queue _
              (subst (λ q. well_queued o.records device q ≡ true) found (w.queues device)) h))
  ]

  pub Step-Holds :
      {c : Chrono} {o o' : Outbox}
      → Step c o o'
      → WellFormed o
      → o.max_attempts ≤ attempts
      → Q o.records
      → Q o'.records
  unfolding observe forget_group set_max_attempts set_log
  Step-Holds (submits o s d new) w under h = submit-Holds s o d new h
  Step-Holds {c} (claims o device at) w under h = claim_next-Holds Q attempts stable w h c device at
  Step-Holds {c} (settles o id outcome at) w under h =
      settle_cases (λ s. Q s.1.records) c id outcome at o (λ _. h)
        (λ r found flying. settle_row-Holds c id r outcome at o found flying under h)
  Step-Holds (observes o device s) w under h = h
  Step-Holds (cancels o device reason) w under h = cancel_queued-Holds w h device reason
  Step-Holds (forgets o group) w under h = h
  Step-Holds (retunes o n) w under h = h
