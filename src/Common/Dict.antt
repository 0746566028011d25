-- ===== src/Common/Dict.antt =====
-- `BTreeMap<String, V>`: an association list in the order of its keys, one entry to a key.
-- A `DashMap<String, V>` is modelled by the same type; an iteration over one is in the same order.
pub mod Ordered
use Prim.Native.String.{String}
use mathlib.Core.Path.{◌≡◌, refl, ap}
use mathlib.Core.Bool.{Bool, true, false}
use mathlib.Core.List.{List, [], ◌∷◌, map}
use mathlib.Core.Option.{Option, none, some}
use native.Mathlib.Omega.{arith}
use text.Mathlib.Text.{◌==◌}
use text.Mathlib.TextEquality.{eq_iff}
use text.Mathlib.TextPositions.{eq_refl}
use mathlib.Core.Logic.{inl, inr}
use sismatic.Common.Tests.{Bool-cases, str_lt, if◌then◌else◌}

pub record Dict {ℓ} (V : Type ℓ) : Type ℓ where
  pub entries : List (String × V)

-- The entry stands in the list.
pub data Listed {ℓ} {V : Type ℓ} (k : String) (v : V) : List (String × V) → Type ℓ where
  first : {j : String} {w : V} {m : List (String × V)} → j ≡ k → w ≡ v → Listed k v ((j, w) ∷ m)
  later : {e : String × V} {m : List (String × V)} → Listed k v m → Listed k v (e ∷ m)

module _ {ℓ} {V : Type ℓ} where
  get_in : String → List (String × V) → Option V
  get_in k [] = none
  get_in k ((j, v) ∷ m) = if j == k then some v else get_in k m

  insert_in : String → V → List (String × V) → List (String × V)
  insert_in k v [] = (k, v) ∷ []
  insert_in k v ((j, w) ∷ m) =
      let rest = insert_in k v m in
      if j == k then (k, v) ∷ m else if str_lt k j then (k, v) ∷ (j, w) ∷ m else (j, w) ∷ rest

  remove_in : String → List (String × V) → List (String × V)
  remove_in k [] = []
  remove_in k ((j, v) ∷ m) = let rest = remove_in k m in if j == k then rest else (j, v) ∷ rest

  abbrev pub empty : Dict V
  empty = record { entries = [] }

  unfoldable pub get : String → Dict V → Option V
  unfolding get_in
  get k d = get_in k d.entries

  unfoldable pub insert : String → V → Dict V → Dict V
  unfolding insert_in
  insert k v d = record { entries = insert_in k v d.entries }

  unfoldable pub remove : String → Dict V → Dict V
  unfolding remove_in
  remove k d = record { entries = remove_in k d.entries }

  -- The values in the order of the keys.
  unfoldable pub values : Dict V → List V
  values d = map (λ e. e.1) d.entries

  unfoldable pub keys : Dict V → List String
  keys d = map (λ e. e.0) d.entries

  abbrev pub contains_key : String → Dict V → Bool
  contains_key k d = elim (get k d) [ none ↦ false | some _ ↦ true ]

  -- `m.get(k).unwrap_or(&default)`.
  abbrev pub get_or : String → V → Dict V → V
  get_or k default d = elim (get k d) [ none ↦ default | some v ↦ v ]

  get_in-insert :
      (k j : String) (v : V) (m : List (String × V))
      → get_in j (insert_in k v m) ≡ (if k == j then some v else get_in j m)
  unfolding get_in insert_in
  get_in-insert k j v [] = refl
  get_in-insert k j v ((i, w) ∷ m) =
      ground (arith, eq_iff k j, eq_iff i k, eq_iff i j, get_in-insert k j v m)

  get_in-remove :
      (k j : String) (m : List (String × V))
      → get_in j (remove_in k m) ≡ (if k == j then none else get_in j m)
  unfolding get_in remove_in
  get_in-remove k j [] = ground arith
  get_in-remove k j ((i, w) ∷ m) =
      ground (arith, eq_iff k j, eq_iff i k, eq_iff i j, get_in-remove k j m)

  pub get-insert :
      (k j : String) (v : V) (d : Dict V)
      → get j (insert k v d) ≡ (if k == j then some v else get j d)
  unfolding get insert
  get-insert k j v d = get_in-insert k j v d.entries

  -- The value of the first entry under the key.
  abbrev pub first_value : String → List (String × V) → Option V
  first_value k [] = none
  first_value k ((j, v) ∷ m) = let rest = first_value k m in if j == k then some v else rest

  get_in_first : (k : String) (m : List (String × V)) → get_in k m ≡ first_value k m
  unfolding get_in
  get_in_first k [] = refl
  get_in_first k ((j, v) ∷ m) = ground (arith, get_in_first k m)

  pub get_first : (k : String) (d : Dict V) → get k d ≡ first_value k d.entries
  unfolding get
  get_first k d = get_in_first k d.entries

  get_in-Listed : (k : String) (v : V) (m : List (String × V)) → get_in k m ≡ some v → Listed k v m
  unfolding get_in
  get_in-Listed k v [] e = absurd (cc)
  get_in-Listed k v ((j, w) ∷ m) e = elim (Bool-cases (j == k)) [
    | inl mine ↦ first (ground (arith, eq_iff j k)) (ground arith)
    | inr other ↦ later (get_in-Listed k v m (ground arith))
  ]

  -- What a lookup finds is an entry.
  pub get-Listed : (k : String) (v : V) (d : Dict V) → get k d ≡ some v → Listed k v d.entries
  unfolding get
  get-Listed k v d = get_in-Listed k v d.entries

  Listed-get_in :
      (k : String) (v : V) (m : List (String × V))
      → Listed k v m
      → (v' : V) × (get_in k m ≡ some v')
  unfolding get_in
  Listed-get_in k v [] e = elim e [ ]
  Listed-get_in k v ((j, w) ∷ m) (Listed.first same _) = (w, ground (arith, eq_iff j k))
  Listed-get_in k v ((j, w) ∷ m) (Listed.later rest) = elim (Bool-cases (j == k)) [
    | inl mine ↦ (w, ground arith)
    | inr other ↦ let (v', e) = Listed-get_in k v m rest in (v', ground (arith, e))
  ]

  -- A listed key is found.
  pub Listed-get :
      (k : String) (v : V) (d : Dict V) → Listed k v d.entries → (v' : V) × (get k d ≡ some v')
  unfolding get
  Listed-get k v d = Listed-get_in k v d.entries

  pub get-remove :
      (k j : String) (d : Dict V) → get j (remove k d) ≡ (if k == j then none else get j d)
  unfolding get remove
  get-remove k j d = get_in-remove k j d.entries

  -- `m.entry(k).or_insert(default)` followed by a change of the entry.
  unfoldable pub update : String → V → (V → V) → Dict V → Dict V
  update k default f d = insert k (f (get_or k default d)) d

  pub get-update :
      (k j : String) (default : V) (f : V → V) (d : Dict V)
      → get j (update k default f d) ≡ (if k == j then some (f (get_or k default d)) else get j d)
  unfolding update
  get-update k j default f d = get-insert k j (f (get_or k default d)) d

pub get-empty {ℓ} : {V : Type ℓ} (k : String) → get k (empty {V = V}) ≡ none
unfolding get
get-empty k = refl

pub ruleset dict_laws = (get-empty, get-insert, get-remove, get-update)
