-- ===== src/Outbox/Submission.antt =====
-- Submission keeps every queue well formed, where its ids are new.
use sismatic.Common.{
  String, ◌≡◌, refl, sym, ◌∙◌, subst, true, false, none, List, [], ◌∷◌, ◌==◌, eq_iff, eq_refl,
  arith, contains, inl, inr, Option-cases, distinct,
}
use sismatic.Common.Dict
use sismatic.Common.Dict.{Dict, get-insert, get-update}
use sismatic.Api.{Intent}
use sismatic.Store.Policy.{Result, ok, err, Submission, SubmitError}
use sismatic.Outbox.State.{DeviceLog, default_log, Outbox, log_of, set_log, set_record, set_batch}
use sismatic.Outbox.Submit.{
  Admission, Row, rows, new_record, enqueued_log, enqueue, enqueue_all, expect, arm, admit_all,
  apply_admitted, admit_and_enqueue, submit,
}
use sismatic.Outbox.Cases.{submit_cases}
use sismatic.Outbox.Queues.{
  is_queued, well_queued, queue_of, WellFormed, WellFormed-move, not_contains, well_queued-push,
  well_queued-insert,
}

-- No record has the id.
abbrev pub IsNew : String → Outbox → Type 0
IsNew id o = Dict.get id o.records ≡ none

abbrev pub AllNew : List String → Outbox → Type 0
AllNew ids o = (id : String) → contains id ids ≡ true → IsNew id o

enqueue-WellFormed :
    {o : Outbox}
    → WellFormed o
    → (s : Submission) (row : Row) → IsNew row.id o
    → WellFormed (enqueue s row o)
unfolding enqueue enqueued_log new_record set_log set_record
enqueue-WellFormed {o} w s row new =
    WellFormed-move w row.device row.id (new_record s row)
      (enqueued_log s row (log_of row.device o)) (λ other ne. nowhere other)
      (well_queued-push (Dict.insert row.id (new_record s row) o.records) row.device row.id
        (queue_of row.device o)
        (well_queued-insert o.records row.device row.id (new_record s row) (queue_of row.device o)
            absent
          ∙ w.queues row.device)
        absent
        (unfold is_queued in
          ground (
            arith,
            get-insert row.id row.id (new_record s row) o.records,
            eq_refl row.id,
            eq_refl row.device,
          )))
  where
    nowhere : (device : String) → is_queued o.records device row.id ≡ false
    nowhere device = unfold is_queued in ground arith

    absent : contains row.id (queue_of row.device o) ≡ false
    absent =
        not_contains o.records row.device row.id (queue_of row.device o) (w.queues row.device)
          (nowhere row.device)

abbrev pub row_ids : List Row → List String
row_ids [] = []
row_ids (row ∷ rest) = row.id ∷ row_ids rest

pub contains-row_ids :
    (k : String) (devices ids : List String) (admitted : List Admission)
    → contains k (row_ids (rows devices ids admitted)) ≡ true
    → contains k ids ≡ true
unfolding rows contains
contains-row_ids k (d ∷ devices) (id ∷ ids) (a ∷ admitted) h =
    ground (arith, contains-row_ids k devices ids admitted)
contains-row_ids k _ _ _ h = ground arith

pub distinct-row_ids :
    (devices ids : List String) (admitted : List Admission)
    → distinct ids ≡ true
    → distinct (row_ids (rows devices ids admitted)) ≡ true
unfolding rows distinct
distinct-row_ids (d ∷ devices) (id ∷ ids) (a ∷ admitted) h =
    ground (arith, contains-row_ids id devices ids admitted, distinct-row_ids devices ids admitted)
distinct-row_ids _ _ _ h = refl

pub still-IsNew :
    (s : Submission) (row : Row) (k : String) (o : Outbox)
    → (row.id == k) ≡ false
    → IsNew k o
    → IsNew k (enqueue s row o)
unfolding enqueue set_log set_record
still-IsNew s row k o ne new = ground (arith, get-insert row.id k (new_record s row) o.records)

enqueue_all-WellFormed :
    (s : Submission) (all : List Row) (o : Outbox)
    → WellFormed o
    → distinct (row_ids all) ≡ true
    → AllNew (row_ids all) o
    → WellFormed (enqueue_all s all o)
unfolding enqueue_all distinct contains
enqueue_all-WellFormed s [] o w d new = w
enqueue_all-WellFormed s (row ∷ rest) o w d new =
    enqueue_all-WellFormed s rest (enqueue s row o)
      (enqueue-WellFormed w s row (new row.id (ground (arith, eq_refl row.id)))) (ground arith)
      (λ k m. still-IsNew s row k o (ground (arith, eq_iff row.id k)) (new k (ground arith)))

pub touched :
    (k j : String) (logs : Dict DeviceLog)
    → Dict.get_or j default_log (Dict.update k default_log (λ l. l) logs)
      ≡ Dict.get_or j default_log logs
touched k j logs = ground (arith, get-update k j default_log (λ l. l) logs, eq_iff k j)

-- Admission gives an unknown device its default log, and changes no log that is there.
pub admit_all_keeps :
    (intent : Intent) (devices : List String) (logs : Dict DeviceLog) (j : String)
    → Dict.get_or j default_log (admit_all intent devices logs).1 ≡ Dict.get_or j default_log logs
unfolding admit_all
admit_all_keeps intent [] logs j = refl
admit_all_keeps intent (device ∷ devices) logs j = ground (
  arith,
  touched device j logs,
  admit_all_keeps intent devices (Dict.update device default_log (λ l. l) logs) j,
)

expect-WellFormed : {o : Outbox} → WellFormed o → (s : Submission) → WellFormed (expect s o)
unfolding expect
expect-WellFormed {o} w s = elim (Option-cases s.group) [
  | inl e ↦ rw (e, expect) w
  | inr (g, e) ↦ rw (e, expect) (record { queues = w.queues })
]

arm-WellFormed : {o : Outbox} → WellFormed o → (s : Submission) → WellFormed (arm s o)
unfolding arm set_batch
arm-WellFormed {o} w s = elim (Option-cases s.batch) [
  | inl e ↦ rw (e, arm) w
  | inr (b, e) ↦ rw (e, arm) (record { queues = w.queues })
]

apply_admitted-WellFormed :
    {o : Outbox}
    → WellFormed o
    → (s : Submission) (r : Result (List Admission) SubmitError) → distinct s.ids ≡ true
    → AllNew s.ids o
    → WellFormed (apply_admitted s o r).1
apply_admitted-WellFormed w s (err e) d new = w
apply_admitted-WellFormed {o} w s (ok admitted) d new =
    arm-WellFormed
      (expect-WellFormed
        (enqueue_all-WellFormed s (rows s.targets s.ids admitted) o w
          (distinct-row_ids s.targets s.ids admitted d)
          (λ k m. new k (contains-row_ids k s.targets s.ids admitted m)))
        s)
      s

admit_and_enqueue-WellFormed :
    {o : Outbox}
    → WellFormed o
    → (s : Submission) → distinct s.ids ≡ true
    → AllNew s.ids o
    → WellFormed (admit_and_enqueue s o).1
unfolding admit_and_enqueue
admit_and_enqueue-WellFormed {o} w s d new =
    let a = admit_all s.intent s.targets o.logs in
    apply_admitted-WellFormed {o = record o { logs = a.1 }}
      (record {
        queues = λ j.
            subst (λ (l : DeviceLog). well_queued o.records j l.queue ≡ true)
              (sym (admit_all_keeps s.intent s.targets o.logs j)) (w.queues j);
      })
      s a.0 d new

pub submit-WellFormed :
    {o : Outbox}
    → WellFormed o
    → (s : Submission) → distinct s.ids ≡ true
    → AllNew s.ids o
    → WellFormed (submit s o).1
submit-WellFormed {o} w s d new =
    submit_cases (λ r. WellFormed r.1) s o (λ _. w) (λ _ _. w)
      (λ _ _. admit_and_enqueue-WellFormed w s d new)
