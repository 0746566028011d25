-- ===== src/Http/Verdict.antt =====
-- What a group's verdict says of its members.
use sismatic.Common.{
  String, ◌≡◌, refl, false, not, Option, none, some, List, [], ◌∷◌, map, all, collect, ok, arith,
  inl, inr, Bool-cases, Option-cases, if◌then◌else◌,
}
use sismatic.Api.{
  Read, GroupExpectation, GroupSyncState, in_sync, drifted, MemberState, GroupFieldState,
}
use sismatic.Catalog.Listing.{group}
use sismatic.Fleet.Summaries.{GroupSummary, device_summary, group_summary}
use sismatic.Store.Expectation.{satisfies}
use sismatic.Reads.State.{MemoryStore, latest}
use sismatic.Outbox.State.{Outbox}
use sismatic.Outbox.Queries.{expected}
use sismatic.Http.Target.{Listed, group_members}
use sismatic.Http.Paging.{normalize_field}
use sismatic.Http.GroupReads.{
  member_sync, is_drifted, is_in_sync, any, worst_of, assemble, read_group_field,
}

-- The verdict on the values that the members have reported: none where nothing was asked or nothing
-- reported, drift where one value does not satisfy what was asked, and agreement else.
abbrev pub verdict : Option GroupExpectation → List Read → GroupSyncState
verdict none reads = GroupSyncState.unknown
verdict (some e) [] = GroupSyncState.unknown
verdict (some e) (r ∷ reads) =
    if all (λ x. satisfies e.value x.value) (r ∷ reads) then in_sync else drifted

by_reads :
    (e : GroupExpectation) (reads : List Read)
    → (if not (all (λ r. satisfies e.value r.value) reads)
        then drifted
        else if any (λ r. satisfies e.value r.value) reads
        then in_sync
        else GroupSyncState.unknown)
      ≡ verdict (some e) reads
unfolding all any
by_reads e [] = refl
by_reads e (r ∷ reads) = ground arith

module _ (told : Option GroupExpectation) (found : String → Option Read) where
  abbrev states_of : List String → List MemberState
  states_of ids =
      map
        (λ (o : String × Option Read). record {
          device = o.0;
          read = o.1;
          sync = member_sync told o.1;
        })
        (map (λ device. (device, found device)) ids)

  nothing_told_drifts :
      (ids : List String) → told ≡ none → any (λ m. is_drifted m.sync) (states_of ids) ≡ false
  unfolding any member_sync
  nothing_told_drifts [] e = refl
  nothing_told_drifts (d ∷ ids) e = ground (arith, e, nothing_told_drifts ids e)

  nothing_told_agrees :
      (ids : List String) → told ≡ none → any (λ m. is_in_sync m.sync) (states_of ids) ≡ false
  unfolding any member_sync
  nothing_told_agrees [] e = refl
  nothing_told_agrees (d ∷ ids) e = ground (arith, e, nothing_told_agrees ids e)

  told_drifts :
      (e : GroupExpectation) (ids : List String)
      → told ≡ some e
      → any (λ m. is_drifted m.sync) (states_of ids)
        ≡ not (all (λ r. satisfies e.value r.value) (collect found ids))
  unfolding any member_sync all collect
  told_drifts e [] h = refl
  told_drifts e (d ∷ ids) h = elim (Option-cases (found d)) [
    | inl f ↦ ground (arith, h, f, told_drifts e ids h)
    | inr (r, f) ↦ elim (Bool-cases (satisfies e.value r.value)) [
      | inl holds ↦ ground (arith, h, f, holds, told_drifts e ids h)
      | inr fails ↦ ground (arith, h, f, fails, told_drifts e ids h)
    ]
  ]

  told_agrees :
      (e : GroupExpectation) (ids : List String)
      → told ≡ some e
      → any (λ m. is_in_sync m.sync) (states_of ids)
        ≡ any (λ r. satisfies e.value r.value) (collect found ids)
  unfolding any member_sync collect
  told_agrees e [] h = refl
  told_agrees e (d ∷ ids) h = elim (Option-cases (found d)) [
    | inl f ↦ ground (arith, h, f, told_agrees e ids h)
    | inr (r, f) ↦ elim (Bool-cases (satisfies e.value r.value)) [
      | inl holds ↦ ground (arith, h, f, holds, told_agrees e ids h)
      | inr fails ↦ ground (arith, h, f, fails, told_agrees e ids h)
    ]
  ]

  assemble-verdict :
      (group_id field : String) (ids : List String)
      → (assemble group_id field told (map (λ device. (device, found device)) ids)).sync
        ≡ verdict told (collect found ids)
  unfolding assemble worst_of
  assemble-verdict group_id field ids = elim (Option-cases told) [
    | inl e ↦ ground (arith, e, nothing_told_drifts ids e, nothing_told_agrees ids e)
    | inr (e, h) ↦
        ground (arith, h, told_drifts e ids h, told_agrees e ids h, by_reads e (collect found ids))
  ]

-- A group's field that is read: the answer's verdict is the one on the values that the members'
-- latest reads have, against what the group was told, under the field's normalized name. It is not
-- known where the group was told nothing or no member has reported, drift where one reported value
-- does not satisfy what was told, and agreement else.
pub read_group_field-verdict :
    (catalog : Listed) (store : MemoryStore) (o : Outbox) (id raw : String) (g : GroupSummary)
    → group device_summary group_summary id catalog ≡ some g
    → (s : GroupFieldState) × (read_group_field catalog store o id raw ≡ ok s)
      × (s.sync
          ≡ verdict
              (expected id (normalize_field raw) o)
              (collect (λ device. latest device (normalize_field raw) store) g.members))
unfolding read_group_field group_members
read_group_field-verdict catalog store o id raw g known =
    let field = normalize_field raw in
    let told = expected id field o in
    let found : String → Option Read = λ device. latest device field store in
    (
      assemble id field told (map (λ device. (device, found device)) g.members),
      rw (known, read_group_field, group_members) refl,
      assemble-verdict told found id field g.members,
    )
