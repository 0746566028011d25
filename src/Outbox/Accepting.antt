-- ===== src/Outbox/Accepting.antt =====
-- What an accepted submission does: each target's queue gets that target's row at its end, and
-- each row is pending.
use sismatic.Common.{
  String, ◌≡◌, refl, true, false, inl, inr, some, List, [], ◌∷◌, ◌++◌, ◌==◌, eq_iff, arith, sym,
  ◌∙◌, contains, distinct, length, suc, Bool-cases, if◌then◌else◌,
}
use mathlib.Core.List.{append_assoc, append-nil}
use sismatic.Common.Dict
use sismatic.Common.Dict.{Dict, get-insert}
use sismatic.Api.{Intent}
use sismatic.Store.Policy.{Result, ok, err, Submission, SubmitError}
use sismatic.Outbox.State.{DeviceLog, default_log, Outbox, log_of, set_log, set_record}
use sismatic.Outbox.Submit.{
  Admission, Row, rows, new_record, enqueued_log, enqueue, enqueue_all, admit_all,
}
use sismatic.Outbox.Queues.{queue_of, log_of-set_log}
use sismatic.Outbox.Submission.{row_ids}

-- The ids that the submission gives to one device, in its order.
unfoldable pub ids_for : String → List String → List String → List String
ids_for device (target ∷ targets) (id ∷ ids) =
    let rest = ids_for device targets ids in if target == device then id ∷ rest else rest
ids_for device _ _ = []

abbrev pub row_ids_for : String → List Row → List String
row_ids_for device [] = []
row_ids_for device (row ∷ all) =
    let rest = row_ids_for device all in if row.device == device then row.id ∷ rest else rest

queue_of-enqueue :
    (s : Submission) (row : Row) (o : Outbox) (device : String)
    → queue_of device (enqueue s row o)
      ≡ (if row.device == device then queue_of device o ++ row.id ∷ [] else queue_of device o)
unfolding enqueue enqueued_log set_record
queue_of-enqueue s row o device = ground (
  arith,
  log_of-set_log row.device device (enqueued_log s row (log_of row.device o))
      (set_record row.id (new_record s row) o),
  eq_iff row.device device,
)

pub queue_of-enqueue_all :
    (s : Submission) (all : List Row) (o : Outbox) (device : String)
    → queue_of device (enqueue_all s all o) ≡ queue_of device o ++ row_ids_for device all
unfolding enqueue_all
queue_of-enqueue_all s [] o device = sym (append-nil (queue_of device o))
queue_of-enqueue_all s (row ∷ all) o device = ground (
  arith,
  queue_of-enqueue_all s all (enqueue s row o) device,
  queue_of-enqueue s row o device,
  append_assoc (queue_of device o) (row.id ∷ []) (row_ids_for device all),
)

pub length-admit_all :
    (intent : Intent) (devices : List String) (logs : Dict DeviceLog) (admitted : List Admission)
    → (admit_all intent devices logs).0 ≡ ok admitted
    → length admitted ≡ length devices
unfolding admit_all
length-admit_all intent [] logs admitted e = ground arith
length-admit_all intent (device ∷ devices) logs admitted e =
    by_rest (admit_all intent devices (Dict.update device default_log (λ l. l) logs)).0 refl
      (length-admit_all intent devices (Dict.update device default_log (λ l. l) logs))
  where
    by_rest :
        (rest : Result (List Admission) SubmitError)
        → (admit_all intent devices (Dict.update device default_log (λ l. l) logs)).0 ≡ rest
        → ((l : List Admission)
            → (admit_all intent devices (Dict.update device default_log (λ l. l) logs)).0 ≡ ok l
            → length l ≡ length devices)
        → length admitted ≡ suc (length devices)
    by_rest (ok l) f ih = ground (arith, ih l f)
    by_rest (err x) f ih = absurd (ground arith)

pub rows_for :
    (targets ids : List String) (admitted : List Admission) (device : String)
    → length ids ≡ length targets
    → length admitted ≡ length targets
    → row_ids_for device (rows targets ids admitted) ≡ ids_for device targets ids
unfolding rows ids_for
rows_for (t ∷ targets) (i ∷ ids) (a ∷ admitted) device h k =
    ground (arith, rows_for targets ids admitted device)
rows_for [] ids admitted device h k = refl
rows_for (t ∷ targets) [] admitted device h k = absurd (omega arith)
rows_for (t ∷ targets) (i ∷ ids) [] device h k = absurd (omega arith)

pub kept_record :
    (s : Submission) (all : List Row) (o : Outbox) (id : String)
    → contains id (row_ids all) ≡ false
    → Dict.get id (enqueue_all s all o).records ≡ Dict.get id o.records
unfolding enqueue_all contains
kept_record s [] o id h = refl
kept_record s (row ∷ all) o id h =
    kept_record s all (enqueue s row o) id (ground arith)
    ∙ unfold enqueue set_log set_record in
      ground (
        arith,
        get-insert row.id id (new_record s row) o.records,
        eq_iff row.id id,
        eq_iff id row.id,
      )

-- The record of an accepted id is a new one.
abbrev pub IsRecorded : Submission → Outbox → String → Type 0
IsRecorded s o id = (row : Row) × (row.id ≡ id) × (Dict.get id o.records ≡ some (new_record s row))

pub new_rows :
    (s : Submission) (all : List Row) (o : Outbox) (id : String)
    → distinct (row_ids all) ≡ true
    → contains id (row_ids all) ≡ true
    → IsRecorded s (enqueue_all s all o) id
unfolding enqueue_all contains distinct
new_rows s [] o id d h = absurd (ground arith)
new_rows s (row ∷ all) o id d h = elim (Bool-cases (contains id (row_ids all))) [
  | inl later ↦ new_rows s all (enqueue s row o) id (ground arith) later
  | inr last ↦
      let mine : row.id ≡ id = ground (arith, eq_iff id row.id) in
      (
        row,
        mine,
        kept_record s all (enqueue s row o) id last
            ∙ unfold enqueue set_log set_record in
              ground (arith, get-insert row.id id (new_record s row) o.records, eq_iff row.id id),
      )
]
