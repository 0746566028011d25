-- ===== src/Devices/Vetoes.antt =====
-- When a field is vetoed: after how many refusals, for how long, and what an answer undoes.
use sismatic.Common.{
  ℕ, zero, suc, refl, false, ◌||◌, eqb, ◌+◌, ◌<◌, ◌≤◌, ◌^◌, String, ◌≡◌, ap, ◌∙◌, Option, none,
  some, List, [], ◌∷◌, length, ltb, ◌==◌, eq_refl, arith, inl, inr, Bool-cases, if◌then◌else◌,
}
use sismatic.Common.Dict
use sismatic.Common.Dict.{Dict, get-insert, get-remove}
use sismatic.Devices.AutoDisabled.{
  AutoDisabled, Record, no_refusals, veto, veto_left, refused, refused_record, saturating_suc,
  answered, until_from,
}

-- One refusal at each of the instants, in order.
unfoldable pub refused_at : List ℕ → String → ℕ → Option ℕ → AutoDisabled → AutoDisabled
refused_at [] field threshold self_heal fields = fields
refused_at (now ∷ later) field threshold self_heal fields =
    refused_at later field threshold self_heal (refused now field threshold self_heal fields).1

abbrev pub last : ℕ → List ℕ → ℕ
last now [] = now
last now (t ∷ later) = last t later

get-refused :
    (now : ℕ) (field other : String) (threshold : ℕ) (self_heal : Option ℕ) (fields : AutoDisabled)
    → 0 < threshold
    → Dict.get other (refused now field threshold self_heal fields).1 ≡ (
        if field == other
        then some (refused_record now threshold self_heal (Dict.get_or field no_refusals fields))
        else Dict.get other fields)
unfolding refused
get-refused now field other threshold self_heal fields pos =
    let after = refused_record now threshold self_heal (Dict.get_or field no_refusals fields) in
    ground (arith, get-insert field other after fields)

module _ (field : String) (threshold : ℕ) (self_heal : Option ℕ) (pos : 0 < threshold)
    (small : threshold < 2 ^ 32) where
  -- Below the threshold the field is not vetoed.
  counted_lem :
      (times : List ℕ) (fields : AutoDisabled)
      → (Dict.get_or field no_refusals fields).vetoed_until ≡ none
      → (Dict.get_or field no_refusals fields).refusals + length times < threshold
      → (Dict.get_or field no_refusals
          (refused_at times field threshold self_heal fields)).vetoed_until
        ≡ none
  unfolding refused_at
  counted_lem [] fields open_field below = open_field
  counted_lem (now ∷ later) fields open_field below =
      let next = (refused now field threshold self_heal fields).1 in
      let found : Dict.get_or field no_refusals next
          ≡ refused_record now threshold self_heal (Dict.get_or field no_refusals fields) =
        ground (arith, get-refused now field field threshold self_heal fields, eq_refl field) in
      counted_lem later next (unfold refused_record saturating_suc in ground (arith, found))
        (unfold refused_record saturating_suc in ground (arith, found))

  -- The count stops at the largest number of 32 bits, which no threshold is above.
  saturating_suc_reaches : (n k : ℕ) → threshold ≤ n + suc k → threshold ≤ saturating_suc n + k
  unfolding saturating_suc
  saturating_suc_reaches n k h = ground arith

  vetoed_lem :
      (now : ℕ) (later : List ℕ) (fields : AutoDisabled)
      → threshold ≤ (Dict.get_or field no_refusals fields).refusals + length (now ∷ later)
      → (Dict.get_or field no_refusals
          (refused_at (now ∷ later) field threshold self_heal fields)).vetoed_until
        ≡ some (until_from (last now later) self_heal)
  unfolding refused_at
  vetoed_lem now [] fields reached =
      let enough =
        saturating_suc_reaches (Dict.get_or field no_refusals fields).refusals 0 reached in
      unfold refused_record in
      ground (arith, enough, get-refused now field field threshold self_heal fields, eq_refl field)
  vetoed_lem now (t ∷ later) fields reached =
      let before = (Dict.get_or field no_refusals fields).refusals in
      let next = (refused now field threshold self_heal fields).1 in
      let found : Dict.get_or field no_refusals next
          ≡ refused_record now threshold self_heal (Dict.get_or field no_refusals fields) =
        ground (arith, get-refused now field field threshold self_heal fields, eq_refl field) in
      let counted : (Dict.get_or field no_refusals next).refusals ≡ saturating_suc before =
        unfold refused_record in ground (arith, found) in
      vetoed_lem t later next
        (omega (arith, counted, saturating_suc_reaches before (suc (length later)) reached))

veto_of_log :
    (t : ℕ) (field : String) (fields : AutoDisabled)
    → veto t field fields ≡ veto_left t (Dict.get_or field no_refusals fields).vetoed_until
unfolding veto
veto_of_log t field fields = ground arith

answered_forgets :
    (field : String) (fields : AutoDisabled)
    → Dict.get_or field no_refusals (answered field fields).1 ≡ no_refusals
unfolding answered
answered_forgets field fields = ground (arith, get-remove field field fields, eq_refl field)

refused_at_inert :
    (times : List ℕ) (field : String) (self_heal : Option ℕ) (fields : AutoDisabled)
    → refused_at times field 0 self_heal fields ≡ fields
unfolding refused_at refused
refused_at_inert [] field self_heal fields = refl
refused_at_inert (now ∷ later) field self_heal fields =
    refused_at_inert later field self_heal fields

-- After an answer the count starts anew. At a threshold of 32 bits, and refused any number of times,
-- at any instants: refused fewer times than the threshold, or at the threshold zero, the field is not
-- vetoed; refused as often or oftener, it is vetoed, from the last refusal on, for as long as the
-- self-healing time says, or without an end where there is none.
pub veto-refused_at-answered :
    (t now : ℕ) (later : List ℕ) (field : String) (threshold : ℕ) (self_heal : Option ℕ)
    (fields : AutoDisabled)
    → threshold < 2 ^ 32
    → veto t field (refused_at (now ∷ later) field threshold self_heal (answered field fields).1)
      ≡ (if eqb threshold 0 || ltb (length (now ∷ later)) threshold
          then none
          else veto_left t (some (until_from (last now later) self_heal)))
veto-refused_at-answered t now later field zero self_heal fields small =
    let clean = (answered field fields).1 in
    ap (veto t field) (refused_at_inert (now ∷ later) field self_heal clean)
    ∙ veto_of_log t field clean
    ∙ ap (λ (r : Record). veto_left t r.vetoed_until) (answered_forgets field fields)
veto-refused_at-answered t now later field (suc n) self_heal fields small =
    let threshold = suc n in
    let pos : 0 < threshold = omega arith in
    let counts : eqb threshold 0 ≡ false = ground arith in
    let clean = (answered field fields).1 in
    let zero_count : (Dict.get_or field no_refusals clean).refusals ≡ 0 =
      ap (λ (r : Record). r.refusals) (answered_forgets field fields) in
    let unvetoed : (Dict.get_or field no_refusals clean).vetoed_until ≡ none =
      ap (λ (r : Record). r.vetoed_until) (answered_forgets field fields) in
    veto_of_log t field (refused_at (now ∷ later) field threshold self_heal clean)
    ∙ elim (Bool-cases (ltb (length (now ∷ later)) threshold)) [
      | inl below ↦ rw (
        counted_lem field threshold self_heal pos small (now ∷ later) clean unvetoed
            (ground (arith, zero_count)),
        below,
        counts,
      )
      | inr reached ↦ rw (
        vetoed_lem field threshold self_heal pos small now later clean (ground (arith, zero_count)),
        reached,
        counts,
      )
    ]
