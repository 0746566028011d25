-- ===== src/Outbox/Cancel.antt =====
-- crates/sismatic-store-memory/src/outbox.rs: what happens to a queue whose device leaves the
-- fleet, and to the expectations of a group that does.
use Prim.Native.String.{◌++◌}
use sismatic.Common.{
  ℕ, String, Bool, false, not, none, some, List, [], ◌∷◌, length, select, set_insert,
}
use sismatic.Common.Dict
use sismatic.Common.Dict.{Dict}
use sismatic.Api.{WriteRecord, canceled, is_pending}
use sismatic.Common.{if◌then◌else◌}
use sismatic.Store.Policy.{add64}
use sismatic.Outbox.State.{Outbox, set_log, set_record}
use sismatic.Outbox.Submit.{in_batch}

-- The first loop's variables.
pub record Sweep : Type 0 where
  pub records : Dict WriteRecord
  pub doomed : List String
  pub count : ℕ

unfoldable pub cancel_row : String → String → Sweep → Sweep
cancel_row reason id s = elim (Dict.get id s.records) [
  | none ↦ s
  | some r ↦ record {
    records = Dict.insert id (record r { status = canceled reason }) s.records;
    doomed = elim r.batch [ none ↦ s.doomed | some b ↦ set_insert b s.doomed ];
    count = add64 s.count 1;
  }
]

unfoldable pub cancel_rows : String → List String → Sweep → Sweep
cancel_rows reason [] s = s
cancel_rows reason (id ∷ ids) s = cancel_rows reason ids (cancel_row reason id s)

-- One turn of the inner loop of `cancel_batch`: only a pending row is canceled and counted.
unfoldable pub cancel_if_pending : String → String → Outbox × ℕ → Outbox × ℕ
cancel_if_pending reason id (o, n) = elim (Dict.get id o.records) [
  | none ↦ (o, n)
  | some r ↦
      if is_pending r.status
      then (set_record id (record r { status = canceled reason }) o, add64 n 1)
      else (o, n)
]

unfoldable pub cancel_pending : String → List String → Outbox × ℕ → Outbox × ℕ
cancel_pending reason [] s = s
cancel_pending reason (id ∷ ids) s = cancel_pending reason ids (cancel_if_pending reason id s)

abbrev pub is_row_of : String → Dict WriteRecord → String → Bool
is_row_of batch records id = elim (Dict.get id records) [ none ↦ false | some r ↦ in_batch batch r ]

unfoldable pub cancel_member : String → String → String → Outbox × ℕ → Outbox × ℕ
cancel_member batch reason member (o, n) = elim (Dict.get member o.logs) [
  | none ↦ (o, n)
  | some log ↦
      let doomed = select (is_row_of batch o.records) log.queue in
      let kept = select (λ id. not (is_row_of batch o.records id)) log.queue in
      cancel_pending reason doomed (set_log member (record log { queue = kept }) o, n)
]

unfoldable pub cancel_members : String → String → List String → Outbox × ℕ → Outbox × ℕ
cancel_members batch reason [] state = state
cancel_members batch reason (member ∷ members) state =
    cancel_members batch reason members (cancel_member batch reason member state)

abbrev pub group_reason : String → String
group_reason reason = reason ++ " (this write's device group could not act together)"

unfoldable pub cancel_batch : String → String → Outbox → Outbox × ℕ
cancel_batch batch reason o = elim (Dict.get batch o.batches) [
  | none ↦ (o, 0)
  | some entry ↦
      cancel_members batch (group_reason reason) entry.members
        (record o { batches = Dict.remove batch o.batches }, 0)
]

unfoldable pub cancel_batches : String → List String → Outbox × ℕ → Outbox × ℕ
cancel_batches reason [] (o, n) = (o, n)
cancel_batches reason (batch ∷ batches) (o, n) =
    let (o', k) = cancel_batch batch reason o in cancel_batches reason batches (o', add64 n k)

unfoldable pub cancel_queued : String → String → Outbox → Outbox × ℕ
cancel_queued device reason o = elim (Dict.get device o.logs) [
  | none ↦ (o, 0)
  | some log ↦
      let drained = set_log device (record log { queue = [] }) o in
      let start : Sweep = record { records = drained.records; doomed = []; count = 0 } in
      let s = cancel_rows reason log.queue start in
      cancel_batches reason s.doomed (record drained { records = s.records }, s.count)
]

unfoldable pub forget_group : String → Outbox → Outbox × ℕ
forget_group group o = (
  record o { groups = Dict.remove group o.groups },
  elim (Dict.get group o.groups) [ none ↦ 0 | some fields ↦ length (Dict.values fields) ],
)
