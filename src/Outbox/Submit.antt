-- ===== src/Outbox/Submit.antt =====
-- crates/sismatic-store-memory/src/outbox.rs, `submit`: admission of a submission for every target
-- or for none, and its replay under an idempotency key.
use Prim.Native.String.{◌++◌}
use sismatic.Common.{
  ℕ, String, Bool, false, Option, none, some, List, [], ◌∷◌, map, reverse, ◌==◌, eqb, length,
  collect, find_first, set_of, decimal, if◌then◌else◌,
}
use mathlib.Core.List.{◌++◌ as append}
use sismatic.Common.Dict
use sismatic.Common.Dict.{Dict}
use sismatic.Api.{
  Intent, DesiredRecordingState, WriteRecord, Accepted, Acceptance, GroupExpectation, pending,
  fail_batch,
}
use sismatic.Store.Policy.{
  Result, ok, err, BarrierPolicy, Submission, SubmitError, rejected, malformed, verb_of, admit,
  opens_recording, epoch_of,
}
use sismatic.Store.Expectation.{expects}
use sismatic.Outbox.State.{
  DeviceLog, default_log, waiting, Batch, Outbox, log_of, set_log, set_record, set_batch,
}

abbrev pub in_batch : String → WriteRecord → Bool
in_batch b r = elim r.batch [ none ↦ false | some c ↦ c == b ]

abbrev pub accepted_of : WriteRecord → Accepted
accepted_of r = record { id = r.id; device = r.device; epoch = r.epoch }

-- The newest row of `device` that belongs to the batch.
unfoldable pub last_row : String → Outbox → String → Option WriteRecord
last_row b o device = elim (Dict.get device o.logs) [
  | none ↦ none
  | some log ↦ find_first (in_batch b) (collect (λ id. Dict.get id o.records) (reverse log.history))
]

unfoldable pub batch_acceptances : String → Outbox → List Accepted
unfolding last_row
batch_acceptances b o = elim (Dict.get b o.batches) [
  | none ↦ []
  | some entry ↦ map accepted_of (collect (last_row b o) entry.members)
]

-- The row that an earlier submission left under the same key at the first target.
unfoldable pub existing_row : Submission → Outbox → Option WriteRecord
existing_row s o = elim s.idempotency_key [
  | none ↦ none
  | some key ↦ elim s.targets [
    | [] ↦ none
    | first ∷ _ ↦ elim (Dict.get first o.logs) [
      | none ↦ none
      | some log ↦ elim (Dict.get key log.keys) [ none ↦ none | some id ↦ Dict.get id o.records ]
    ]
  ]
]

unfoldable pub replay : WriteRecord → Outbox → Acceptance
replay first o = record {
  batch = first.batch;
  writes = elim first.batch [ none ↦ accepted_of first ∷ [] | some b ↦ batch_acceptances b o ];
}

pub record Admission : Type 0 where
  pub before : DesiredRecordingState
  pub after : DesiredRecordingState
  pub epoch : ℕ

abbrev pub push_admission :
    Admission → Result (List Admission) SubmitError → Result (List Admission) SubmitError
push_admission a (ok as') = ok (a ∷ as')
push_admission a (err e) = err e

-- Every target is asked before any is changed; an unknown device gets its default log.
unfoldable pub admit_all :
    Intent → List String → Dict DeviceLog → Result (List Admission) SubmitError × Dict DeviceLog
admit_all intent [] logs = (ok [], logs)
admit_all intent (device ∷ devices) logs =
    let log = Dict.get_or device default_log logs in
    let before = log.desired_recording_state in
    let logs' = Dict.update device default_log (λ l. l) logs in
    elim (admit before (verb_of intent)) [
      | err rejection ↦ (err (rejected device rejection before), logs')
      | ok after ↦
          let rest = admit_all intent devices logs' in
          let a : Admission = record {
            before = before;
            after = after;
            epoch = epoch_of before after log.epoch;
          } in
          (push_admission a rest.0, rest.1)
    ]

-- One turn of the second loop: a target, its id and its admission.
pub record Row : Type 0 where
  pub device : String
  pub id : String
  pub admitted : Admission

unfoldable pub rows : List String → List String → List Admission → List Row
rows (device ∷ devices) (id ∷ ids) (a ∷ admitted) =
    record { device = device; id = id; admitted = a } ∷ rows devices ids admitted
rows _ _ _ = []

unfoldable pub new_record : Submission → Row → WriteRecord
new_record s row = record {
  id = row.id;
  device = row.device;
  intent = s.intent;
  batch = s.batch;
  epoch = row.admitted.epoch;
  status = pending;
  attempts = 0;
  enqueued_at = s.at;
  updated_at = s.at;
  not_before = s.at;
}

unfoldable pub enqueued_log : Submission → Row → DeviceLog → DeviceLog
enqueued_log s row log = record log {
  queue = append log.queue (row.id ∷ []);
  history = append log.history (row.id ∷ []);
  desired_recording_state = row.admitted.after;
  epoch =
      if opens_recording row.admitted.before row.admitted.after
      then row.admitted.epoch
      else log.epoch;
  keys = elim s.idempotency_key [ none ↦ log.keys | some key ↦ Dict.insert key row.id log.keys ];
}

unfoldable pub enqueue : Submission → Row → Outbox → Outbox
enqueue s row o =
    let recorded = set_record row.id (new_record s row) o in
    set_log row.device (enqueued_log s row (log_of row.device recorded)) recorded

unfoldable pub enqueue_all : Submission → List Row → Outbox → Outbox
enqueue_all s [] o = o
enqueue_all s (row ∷ rest) o = enqueue_all s rest (enqueue s row o)

unfoldable pub expect : Submission → Outbox → Outbox
expect s o = elim s.group [
  | none ↦ o
  | some group ↦
      let (field, value) = expects s.intent in
      let e : GroupExpectation = record { field = field; value = value; since = s.at } in
      record o { groups = Dict.update group Dict.empty (Dict.insert field e) o.groups }
]

abbrev pub default_barrier : BarrierPolicy
default_barrier = record { timeout = 15000000000; on_timeout = fail_batch }

abbrev pub new_batch : Submission → Batch
new_batch s = record {
  members = set_of s.targets;
  ready = [];
  armed_at = s.at;
  barrier = elim s.barrier [ none ↦ default_barrier | some b ↦ b ];
  gate = waiting;
}

unfoldable pub arm : Submission → Outbox → Outbox
arm s o = elim s.batch [ none ↦ o | some b ↦ set_batch b (new_batch s) o ]

abbrev pub accepted_row : Row → Accepted
accepted_row row = record { id = row.id; device = row.device; epoch = row.admitted.epoch }

abbrev pub apply_admitted :
    Submission
    → Outbox
    → Result (List Admission) SubmitError
    → Result Acceptance SubmitError × Outbox
apply_admitted s o (err e) = (err e, o)
apply_admitted s o (ok admitted) =
    let all = rows s.targets s.ids admitted in
    (
      ok (record { batch = s.batch; writes = map accepted_row all }),
      arm s (expect s (enqueue_all s all o)),
    )

-- What follows the look at the idempotency key.
unfoldable pub admit_and_enqueue : Submission → Outbox → Result Acceptance SubmitError × Outbox
admit_and_enqueue s o =
    let (admitted, logs) = admit_all s.intent s.targets o.logs in
    apply_admitted s (record o { logs = logs }) admitted

mismatch : Submission → String
mismatch s = decimal (length s.ids) ++ (" ids for " ++ (decimal (length s.targets) ++ " targets"))

unfoldable pub submit : Submission → Outbox → Result Acceptance SubmitError × Outbox
unfolding mismatch
submit s o =
    if eqb (length s.targets) 0
    then (err (malformed "no targets"), o)
    else if eqb (length s.ids) (length s.targets)
    then (elim (existing_row s o) [
      | some first ↦ (ok (replay first o), o)
      | none ↦ admit_and_enqueue s o
    ])
    else (err (malformed (mismatch s)), o)
