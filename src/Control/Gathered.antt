-- ===== src/Control/Gathered.antt =====
-- What the run of a group gives for each of its members.
use sismatic.Common.{
  String, ◌≡◌, refl, ap, ◌∙◌, Bool, true, false, none, some, List, [], ◌∷◌, ◌++◌, map, ◌==◌, eq_iff,
  arith, contains, distinct, ok, err, inl, inr, Bool-cases,
}
use mathlib.Core.List.{append_assoc, append-nil}
use sismatic.Common.Dict.{first_value}
use sismatic.Protocol.Values.{Value}
use sismatic.Control.Device.{DeviceError}
use sismatic.Control.Group.{MemberDone, gather, run_group}

-- The values and the failures, each in the order of the members.
abbrev pub values_of : List MemberDone → List (String × Value)
values_of [] = []
values_of ((id, ok v) ∷ rest) = (id, v) ∷ values_of rest
values_of ((id, err e) ∷ rest) = values_of rest

abbrev pub failures_of : List MemberDone → List (String × DeviceError)
failures_of [] = []
failures_of ((id, ok v) ∷ rest) = failures_of rest
failures_of ((id, err e) ∷ rest) = (id, e) ∷ failures_of rest

gather_lem :
    (members : List MemberDone) (values : List (String × Value))
    (failures : List (String × DeviceError))
    → gather members (values, failures)
      ≡ (values ++ values_of members, failures ++ failures_of members)
unfolding gather
gather_lem [] values failures = ground (arith, append-nil values, append-nil failures)
gather_lem ((id, ok v) ∷ rest) values failures =
    gather_lem rest (values ++ (id, v) ∷ []) failures
    ∙ ap (λ vs. (vs, failures ++ failures_of rest))
        (append_assoc values ((id, v) ∷ []) (values_of rest))
gather_lem ((id, err e) ∷ rest) values failures =
    gather_lem rest values (failures ++ (id, e) ∷ [])
    ∙ ap (λ fs. (values ++ values_of rest, fs))
        (append_assoc failures ((id, e) ∷ []) (failures_of rest))

-- No member has failed.
abbrev pub all_answered : List MemberDone → Bool
all_answered [] = true
all_answered ((id, ok v) ∷ rest) = all_answered rest
all_answered ((id, err e) ∷ rest) = false

abbrev pub ids {ℓ} : {V : Type ℓ} → List (String × V) → List String
ids members = map (λ m. m.0) members

answered_failures :
    (members : List MemberDone) → all_answered members ≡ true → failures_of members ≡ []
answered_failures [] h = refl
answered_failures ((id, ok v) ∷ rest) h = answered_failures rest h
answered_failures ((id, err e) ∷ rest) h = absurd (cc)

-- A run of a group comes to the values where every member has answered, and else to the failures.
pub run_group_answered :
    (id : String) (members : List MemberDone)
    → all_answered members ≡ true
    → run_group id members ≡ ok (values_of members)
unfolding run_group
run_group_answered id members h =
    ground (arith, gather_lem members [] [], answered_failures members h)

some_failure :
    (members : List MemberDone)
    → all_answered members ≡ false
    → (f : String × DeviceError) × (fs : List (String × DeviceError)) × (failures_of members
        ≡ f ∷ fs)
some_failure [] h = absurd (cc)
some_failure ((id, ok v) ∷ rest) h = some_failure rest h
some_failure ((id, err e) ∷ rest) h = ((id, e), failures_of rest, refl)

pub run_group_failed :
    (id : String) (members : List MemberDone)
    → all_answered members ≡ false
    → run_group id members ≡ err (record { id = id; failures = failures_of members })
unfolding run_group
run_group_failed id members h =
    let (f, fs, e) = some_failure members h in rw (gather_lem members [] [], e, run_group) refl

pub failed_member :
    (k : String) (e : DeviceError) (members : List MemberDone)
    → first_value k members ≡ some (err e)
    → all_answered members ≡ false
failed_member k e [] h = absurd (cc)
failed_member k e ((id, err d) ∷ rest) h = refl
failed_member k e ((id, ok v) ∷ rest) h = elim (Bool-cases (id == k)) [
  | inl mine ↦ absurd (ground (arith, mine, h))
  | inr other ↦ failed_member k e rest (ground (arith, other, h))
]

values_absent :
    (k : String) (members : List MemberDone)
    → contains k (ids members) ≡ false
    → contains k (ids (values_of members)) ≡ false
unfolding contains
values_absent k [] h = refl
values_absent k ((id, ok v) ∷ rest) h = ground (arith, values_absent k rest)
values_absent k ((id, err e) ∷ rest) h = ground (arith, values_absent k rest)

failures_absent :
    (k : String) (members : List MemberDone)
    → contains k (ids members) ≡ false
    → contains k (ids (failures_of members)) ≡ false
unfolding contains
failures_absent k [] h = refl
failures_absent k ((id, ok v) ∷ rest) h = ground (arith, failures_absent k rest)
failures_absent k ((id, err e) ∷ rest) h = ground (arith, failures_absent k rest)

pub distinct-values_of :
    (members : List MemberDone)
    → distinct (ids members) ≡ true
    → distinct (ids (values_of members)) ≡ true
unfolding distinct
distinct-values_of [] h = refl
distinct-values_of ((id, ok v) ∷ rest) h =
    ground (arith, distinct-values_of rest, values_absent id rest)
distinct-values_of ((id, err e) ∷ rest) h = ground (arith, distinct-values_of rest)

pub distinct-failures_of :
    (members : List MemberDone)
    → distinct (ids members) ≡ true
    → distinct (ids (failures_of members)) ≡ true
unfolding distinct
distinct-failures_of [] h = refl
distinct-failures_of ((id, ok v) ∷ rest) h = ground (arith, distinct-failures_of rest)
distinct-failures_of ((id, err e) ∷ rest) h =
    ground (arith, distinct-failures_of rest, failures_absent id rest)

-- The value of the first entry of an absent key.
first_value_absent {ℓ} :
    {V : Type ℓ} (k : String) (m : List (String × V))
    → contains k (ids m) ≡ false
    → first_value k m ≡ none
unfolding contains
first_value_absent k [] h = refl
first_value_absent k ((j, v) ∷ m) h = ground (arith, first_value_absent k m, eq_iff j k, eq_iff k j)

pub first_value-values_of :
    (k : String) (v : Value) (members : List MemberDone)
    → first_value k members ≡ some (ok v)
    → first_value k (values_of members) ≡ some v
first_value-values_of k v [] h = absurd (cc)
first_value-values_of k v ((id, ok w) ∷ rest) h = elim (Bool-cases (id == k)) [
  | inl mine ↦ ground (arith, mine, h)
  | inr other ↦ ground (arith, other, first_value-values_of k v rest (ground (arith, other, h)))
]
first_value-values_of k v ((id, err e) ∷ rest) h = elim (Bool-cases (id == k)) [
  | inl mine ↦ absurd (ground (arith, mine, h))
  | inr other ↦ first_value-values_of k v rest (ground (arith, other, h))
]

pub first_value-failures_of :
    (k : String) (e : DeviceError) (members : List MemberDone)
    → first_value k members ≡ some (err e)
    → first_value k (failures_of members) ≡ some e
first_value-failures_of k e [] h = absurd (cc)
first_value-failures_of k e ((id, ok v) ∷ rest) h = elim (Bool-cases (id == k)) [
  | inl mine ↦ absurd (ground (arith, mine, h))
  | inr other ↦ first_value-failures_of k e rest (ground (arith, other, h))
]
first_value-failures_of k e ((id, err d) ∷ rest) h = elim (Bool-cases (id == k)) [
  | inl mine ↦ ground (arith, mine, h)
  | inr other ↦ ground (arith, other, first_value-failures_of k e rest (ground (arith, other, h)))
]

pub not_failed :
    (k : String) (v : Value) (members : List MemberDone)
    → distinct (ids members) ≡ true
    → first_value k members ≡ some (ok v)
    → first_value k (failures_of members) ≡ none
unfolding distinct
not_failed k v [] d h = absurd (cc)
not_failed k v ((id, ok w) ∷ rest) d h = elim (Bool-cases (id == k)) [
  | inl mine ↦
      first_value_absent k (failures_of rest)
        (failures_absent k rest (ground (arith, eq_iff id k, mine, d)))
  | inr other ↦ not_failed k v rest (ground (arith, d)) (ground (arith, other, h))
]
not_failed k v ((id, err e) ∷ rest) d h = elim (Bool-cases (id == k)) [
  | inl mine ↦ absurd (ground (arith, mine, h))
  | inr other ↦
      ground (arith, other, not_failed k v rest (ground (arith, d)) (ground (arith, other, h)))
]
