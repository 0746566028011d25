-- ===== src/Http/GroupReads.antt =====
-- crates/sismatic-http-api/src/handlers/group_reads.rs: what is answered of a group's fields, over the
-- memory catalog, the memory read store and the memory outbox, none of which fails.
use sismatic.Common.{
  String, Bool, true, false, Option, none, some, List, [], ◌∷◌, ◌++◌, map, ◌==◌, all, find_first,
  collect, set_of, Result, ok, err, ◌>>=◌, if◌then◌else◌,
}
use sismatic.Api.{
  Read, GroupExpectation, same_value, DesiredRecordingState, idle, recording, GroupSyncState,
  in_sync, drifted, MemberState, GroupFieldState, GroupFieldStateList, GroupHistory, ReadQuery,
  MemberDesiredRecordingState, GroupDesiredRecordingState,
}
use sismatic.Store.Expectation.{satisfies}
use sismatic.Reads.State.{MemoryStore, latest, latest_all, between}
use sismatic.Outbox.State.{Outbox}
use sismatic.Outbox.Queries.{expected, expected_all, desired_recording_state}
use sismatic.Http.Failure.{ApiFailure}
use sismatic.Http.Target.{Listed, group_members}
use sismatic.Http.Paging.{normalize_field, reject_conflicting_field, span_of, truncate}

-- Where nothing was asked, or nothing was said, it is not known.
unfoldable pub member_sync : Option GroupExpectation → Option Read → GroupSyncState
unfolding satisfies
member_sync none read = GroupSyncState.unknown
member_sync (some e) none = GroupSyncState.unknown
member_sync (some e) (some r) = if satisfies e.value r.value then in_sync else drifted

abbrev pub is_drifted : GroupSyncState → Bool
is_drifted GroupSyncState.drifted = true
is_drifted _ = false

abbrev pub is_in_sync : GroupSyncState → Bool
is_in_sync GroupSyncState.in_sync = true
is_in_sync _ = false

-- `Iterator::any`.
unfoldable pub any {ℓ} : {A : Type ℓ} → (A → Bool) → List A → Bool
any p [] = false
any p (x ∷ xs) = let rest = any p xs in if p x then true else rest

-- Drift before agreement, and agreement before neither.
unfoldable pub worst_of {ℓ} : {A : Type ℓ} → (A → GroupSyncState) → List A → GroupSyncState
unfolding any
worst_of sync xs =
    if any (λ x. is_drifted (sync x)) xs
    then drifted
    else if any (λ x. is_in_sync (sync x)) xs
    then in_sync
    else GroupSyncState.unknown

unfoldable pub is_uniform : List Read → Bool
unfolding all same_value
is_uniform [] = true
is_uniform (first ∷ rest) = all (λ r. same_value r.value first.value) rest

unfoldable pub assemble :
    String → String → Option GroupExpectation → List (String × Option Read) → GroupFieldState
unfolding member_sync worst_of is_uniform collect
assemble group field told observed =
    let members : List MemberState =
      map (λ o. record { device = o.0; read = o.1; sync = member_sync told o.1 }) observed in
    record {
      group = group;
      field = field;
      expected = told;
      sync = worst_of (λ m. m.sync) members;
      uniform = is_uniform (collect (λ m. m.read) members);
      members = members;
    }

unfoldable pub rolled_up : List GroupFieldState → GroupSyncState
unfolding worst_of
rolled_up fields = worst_of (λ f. f.sync) fields

abbrev same_desired : DesiredRecordingState → DesiredRecordingState → Bool
same_desired idle idle = true
same_desired recording recording = true
same_desired DesiredRecordingState.paused DesiredRecordingState.paused = true
same_desired _ _ = false

-- crates/sismatic-http-api/src/handlers/writes.rs: the state that every member is in.
unfoldable pub group_desired_recording_state :
    Outbox → String → List String → GroupDesiredRecordingState
unfolding desired_recording_state all
group_desired_recording_state log group ids =
    let members : List MemberDesiredRecordingState =
      map
        (λ device.
          let known = desired_recording_state device log in
          record {
            device = device;
            desired_recording_state = known.desired_recording_state;
            epoch = known.epoch;
          })
        ids in
    record {
      group = group;
      desired_recording_state = elim members [
        | [] ↦ none
        | first ∷ rest ↦
            if all (λ m. same_desired m.desired_recording_state first.desired_recording_state)
              (first ∷ rest)
            then some first.desired_recording_state
            else none
      ];
      members = members;
    }

-- The entry of the index for a field.
unfoldable pub field_entry :
    String → List GroupExpectation → List (String × List Read) → String → GroupFieldState
unfolding assemble find_first
field_entry group expectations reads field =
    assemble group field (find_first (λ e. e.field == field) expectations)
      (map (λ m. (m.0, find_first (λ r. r.field == field) m.1)) reads)

-- `group_state_of`, the body of `list_group_fields`.
unfoldable pub group_state_of :
    Listed → MemoryStore → Outbox → String → Result GroupFieldStateList ApiFailure
unfolding group_members latest_all expected_all field_entry rolled_up group_desired_recording_state
    set_of
group_state_of catalog store o group = do
  ids ← group_members catalog group "reads" "fields"
  let reads = map (λ device. (device, latest_all device store)) ids
  let expectations = expected_all group o
  let names = map (λ e. e.field) expectations ++ joined (map (λ m. map (λ r. r.field) m.1) reads)
  let fields = map (field_entry group expectations reads) (set_of names)
  ok (record {
    group = group;
    sync = rolled_up fields;
    desired_recording_state = (group_desired_recording_state o group ids).desired_recording_state;
    fields = fields;
  })
  where
    joined : List (List String) → List String
    joined [] = []
    joined (names ∷ rest) = names ++ joined rest

unfoldable pub read_group_field :
    Listed → MemoryStore → Outbox → String → String → Result GroupFieldState ApiFailure
unfolding normalize_field group_members expected latest assemble
read_group_field catalog store o group raw = do
  ids ← group_members catalog group "reads" "fields"
  let field = normalize_field raw
  let observed = map (λ device. (device, latest device field store)) ids
  ok (assemble group field (expected group field o) observed)

unfoldable pub group_field_history :
    Listed → MemoryStore → Outbox → String → String → ReadQuery → Result GroupHistory ApiFailure
unfolding normalize_field reject_conflicting_field group_members span_of between truncate expected
group_field_history catalog store o group raw query =
    let field = normalize_field raw in
    elim (reject_conflicting_field query field) [
      | some refusal ↦ err refusal
      | none ↦ do
        ids ← group_members catalog group "reads" "fields"
        let series =
            map
              (λ device. record {
                device = device;
                reads = truncate (between device field (span_of query) store) query.limit;
              })
              ids
        ok (record {
          group = group;
          field = field;
          expected = expected group field o;
          members = series;
        })
    ]
