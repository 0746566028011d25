-- ===== src/Outbox/Drain.antt =====
-- crates/sismatic-store-memory/src/outbox.rs, the `WriteDrain` side: claiming the head of a
-- queue, the rendezvous of a batch, and the settling of a claimed row.
use sismatic.Common.{
  ◌+◌, ◌%◌, ◌^◌, String, Bool, false, ◌&&◌, Option, none, some, List, [], ◌∷◌, str_lt, str_le,
  select, same_texts, if◌then◌else◌,
}
use sismatic.Common.Dict
use sismatic.Api.{
  WriteRecord, Timestamp, Barrier, dispatch_ready, fail_batch, in_flight, WriteStatus,
}
use sismatic.Store.Policy.{Result, ok, err, Claim, one, verb_of, rollback}
use sismatic.Outbox.State.{
  DeviceLog, Gate, waiting, open_gate, abandoned, Batch, Outbox, Chrono, set_log, set_record,
  set_batch, elapsed_past,
}
use sismatic.Outbox.Submit.{in_batch}

pub data WriteError : Type 0 where
  backend : String → WriteError

abbrev pub no_record : WriteError
no_record = backend "a queued id has no record behind it"

pub data BatchStep : Type 0 where
  wait alone : BatchStep
  release fail : List String → BatchStep

abbrev pub claimed : Timestamp → WriteRecord → WriteRecord
claimed at r = record r {
  status = in_flight;
  attempts = (r.attempts + 1) % 2 ^ 32;
  updated_at = at;
}

unfoldable pub claim_front :
    String
    → Timestamp
    → DeviceLog
    → List String
    → Outbox
    → Result (Option WriteRecord) WriteError × Outbox
claim_front device at log [] o = (ok none, o)
claim_front device at log (id ∷ rest) o =
    let popped = set_log device (record log { queue = rest }) o in
    elim (Dict.get id o.records) [
      | none ↦ (err no_record, popped)
      | some r ↦ (ok (some (claimed at r)), set_record id (claimed at r) popped)
    ]

unfoldable pub claim_head :
    String → Timestamp → Outbox → Result (Option WriteRecord) WriteError × Outbox
unfolding claim_front
claim_head device at o = elim (Dict.get device o.logs) [
  | none ↦ (ok none, o)
  | some log ↦ claim_front device at log log.queue o
]

abbrev pub expired_row : Timestamp → WriteRecord → WriteRecord
expired_row at r = record r {
  status = WriteStatus.failed "the group barrier expired before every member was ready";
  updated_at = at;
}

unfoldable pub fail_front : String → Timestamp → DeviceLog → List String → Outbox → Outbox
fail_front device at log [] o = o
fail_front device at log (id ∷ rest) o =
    let popped = record log { queue = rest } in
    elim (Dict.get id o.records) [
      | none ↦ set_log device popped o
      | some r ↦ set_record id (expired_row at r) (
          set_log device
            (record popped {
              desired_recording_state = rollback log.desired_recording_state (verb_of r.intent);
            })
            o)
    ]

unfoldable pub fail_head : String → Timestamp → Outbox → Outbox
unfolding fail_front
fail_head device at o = elim (Dict.get device o.logs) [
  | none ↦ o
  | some log ↦ fail_front device at log log.queue o
]

-- `log.queue.front()`.
abbrev pub front : List String → Option String
front [] = none
front (id ∷ _) = some id

abbrev pub head_of : String → Outbox → Option String
head_of device o = elim (Dict.get device o.logs) [ none ↦ none | some log ↦ front log.queue ]

abbrev pub head_record : String → Outbox → Option WriteRecord
head_record device o = elim (head_of device o) [ none ↦ none | some id ↦ Dict.get id o.records ]

-- The member's row of the batch is at the head of its queue, and due.
unfoldable pub is_ready_for : Outbox → String → Timestamp → String → Bool
is_ready_for o batch at member = elim (head_record member o) [
  | none ↦ false
  | some r ↦ in_batch batch r && str_le r.not_before at
]

abbrev pub gate_after : BatchStep → Gate
gate_after wait = waiting
gate_after (release _) = open_gate
gate_after alone = open_gate
gate_after (fail _) = abandoned

abbrev pub on_timeout : Barrier → List String → BatchStep
on_timeout dispatch_ready ready = release ready
on_timeout fail_batch ready = fail ready

-- What a waiting barrier decides.
unfoldable pub decide : Chrono → Batch → List String → Timestamp → BatchStep
decide c batch ready at =
    if same_texts ready batch.members
    then release ready
    else if elapsed_past c batch.armed_at batch.barrier.timeout at
    then on_timeout batch.barrier.on_timeout ready
    else wait

unfoldable pub ready_members : Outbox → String → Batch → Timestamp → List String
ready_members o batch_id batch at = select (is_ready_for o batch_id at) batch.members

abbrev pub stepped : Batch → List String → BatchStep → Batch
stepped batch ready step = record batch { ready = ready; gate = gate_after step }

unfoldable pub step_gate :
    Chrono → Gate → Batch → String → String → Timestamp → Outbox → BatchStep × Outbox
step_gate c open_gate batch batch_id device at o = (alone, o)
step_gate c abandoned batch batch_id device at o = (fail (device ∷ []), o)
step_gate c waiting batch batch_id device at o =
    let ready = ready_members o batch_id batch at in
    let step = decide c batch ready at in (step, set_batch batch_id (stepped batch ready step) o)

unfoldable pub step_batch : Chrono → String → String → Timestamp → Outbox → BatchStep × Outbox
unfolding step_gate
step_batch c batch_id device at o = elim (Dict.get batch_id o.batches) [
  | none ↦ (wait, o)
  | some batch ↦ step_gate c batch.gate batch batch_id device at o
]

abbrev pub push_claim :
    Option WriteRecord → Result (List WriteRecord) WriteError → Result (List WriteRecord) WriteError
push_claim none rest = rest
push_claim (some r) (ok rs) = ok (r ∷ rs)
push_claim (some r) (err e) = err e

-- The loop of a release; the first error ends it.
unfoldable pub claim_heads :
    List String → Timestamp → Outbox → Result (List WriteRecord) WriteError × Outbox
claim_heads [] at o = (ok [], o)
claim_heads (member ∷ members) at o =
    let (r, o') = claim_head member at o in
    let rest = claim_heads members at o' in
    elim r [ err e ↦ (err e, o') | ok claim ↦ (push_claim claim rest.0, rest.1) ]

unfoldable pub fail_heads : List String → Timestamp → Outbox → Outbox
fail_heads [] at o = o
fail_heads (member ∷ members) at o = fail_heads members at (fail_head member at o)

abbrev pub as_one : Result (Option WriteRecord) WriteError → Result (Option Claim) WriteError
as_one (err e) = err e
as_one (ok none) = ok none
as_one (ok (some r)) = ok (some (one r))

abbrev pub as_batch :
    String → Result (List WriteRecord) WriteError → Result (Option Claim) WriteError
as_batch id (err e) = err e
as_batch id (ok rs) = ok (some (Claim.batch id rs))

unfoldable pub act :
    BatchStep → String → String → Timestamp → Outbox → Result (Option Claim) WriteError × Outbox
act wait batch_id device at o = (ok none, o)
act alone batch_id device at o = let (r, o') = claim_head device at o in (as_one r, o')
act (release members) batch_id device at o =
    let (r, o') = claim_heads members at o in (as_batch batch_id r, o')
act (fail members) batch_id device at o = (ok none, fail_heads members at o)

-- The row at the head, which is due.
unfoldable pub claim_due :
    Chrono → WriteRecord → String → Timestamp → Outbox → Result (Option Claim) WriteError × Outbox
claim_due c r device at o = elim r.batch [
  | none ↦ let (claim, o') = claim_head device at o in (as_one claim, o')
  | some batch_id ↦
      let (step, o') = step_batch c batch_id device at o in act step batch_id device at o'
]

unfoldable pub claim_next :
    Chrono → String → Timestamp → Outbox → Result (Option Claim) WriteError × Outbox
claim_next c device at o = elim (head_of device o) [
  | none ↦ (ok none, o)
  | some head ↦ elim (Dict.get head o.records) [
    | none ↦ (err no_record, o)
    | some r ↦ if str_lt at r.not_before then (ok none, o) else claim_due c r device at o
  ]
]
