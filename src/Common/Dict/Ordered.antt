-- ===== src/Common/Dict/Ordered.antt =====
-- A map whose keys ascend, as every map that is built by insertions.
use Prim.Native.String.{String}
use mathlib.Core.Path.{◌≡◌, refl}
use mathlib.Core.Bool.{true, false}
use mathlib.Core.List.{List, [], ◌∷◌, map}
use mathlib.Core.Option.{Option, none, some}
use native.Mathlib.Omega.{arith}
use text.Mathlib.Text.{◌==◌}
use text.Mathlib.TextEquality.{eq_iff}
use sismatic.Common.Tests.{str_lt, if◌then◌else◌}
use sismatic.Common.Lists.{all, contains, distinct}
use sismatic.Common.Sets.{ascending, all_below}
use sismatic.Common.Order.{str_lt_asym, str_lt_total}
use sismatic.Common.Dict.{
  Dict, get_in, insert_in, get, insert, keys, empty, first_value, contains_key,
}

module _ {ℓ} {V : Type ℓ} where
  all-insert_in :
      (y k : String) (v : V) (m : List (String × V))
      → str_lt y k ≡ true
      → all (str_lt y) (map (λ e. e.0) m) ≡ true
      → all (str_lt y) (map (λ e. e.0) (insert_in k v m)) ≡ true
  unfolding insert_in all
  all-insert_in y k v [] above h = ground arith
  all-insert_in y k v ((j, w) ∷ m) above h = ground (arith, all-insert_in y k v m above, eq_iff j k)

  ascending-insert_in :
      (k : String) (v : V) (m : List (String × V))
      → ascending (map (λ e. e.0) m) ≡ true
      → ascending (map (λ e. e.0) (insert_in k v m)) ≡ true
  unfolding insert_in ascending all
  ascending-insert_in k v [] h = ground arith
  ascending-insert_in k v ((j, w) ∷ m) h = ground (
    arith,
    ascending-insert_in k v m,
    all-insert_in j k v m,
    all_below k j (map (λ e. e.0) m),
    str_lt_total k j,
    eq_iff j k,
    eq_iff k j,
  )

  pub ascending-keys-insert :
      (k : String) (v : V) (d : Dict V)
      → ascending (keys d) ≡ true
      → ascending (keys (insert k v d)) ≡ true
  unfolding insert keys
  ascending-keys-insert k v d h = ascending-insert_in k v d.entries h

  -- The value of the last entry under the key, or else the one given.
  abbrev pub last_value : String → List (String × V) → Option V → Option V
  last_value k [] before = before
  last_value k ((j, v) ∷ m) before = last_value k m (if j == k then some v else before)

  last_value_above :
      (k : String) (m : List (String × V)) (before : Option V)
      → all (str_lt k) (map (λ e. e.0) m) ≡ true
      → last_value k m before ≡ before
  unfolding all
  last_value_above k [] before h = refl
  last_value_above k ((j, w) ∷ m) before h =
      ground (arith, last_value_above k m before, str_lt_asym k j, eq_iff j k)

  last_value_lem :
      (k : String) (m : List (String × V))
      → ascending (map (λ e. e.0) m) ≡ true
      → last_value k m none ≡ first_value k m
  unfolding ascending
  last_value_lem k [] h = refl
  last_value_lem k ((j, w) ∷ m) h =
      ground (arith, last_value_lem k m, last_value_above k m (some w), eq_iff j k)

  last_value_absent :
      (k : String) (m : List (String × V)) (before : Option V)
      → contains k (map (λ e. e.0) m) ≡ false
      → last_value k m before ≡ before
  unfolding contains
  last_value_absent k [] before h = refl
  last_value_absent k ((j, w) ∷ m) before h =
      ground (arith, last_value_absent k m before, eq_iff j k, eq_iff k j)

  -- Where the keys are distinct, the last entry is the first.
  pub last_value-distinct :
      (k : String) (m : List (String × V))
      → distinct (map (λ e. e.0) m) ≡ true
      → last_value k m none ≡ first_value k m
  unfolding distinct
  last_value-distinct k [] h = refl
  last_value-distinct k ((j, w) ∷ m) h =
      ground
        (arith, last_value-distinct k m, last_value_absent k m (some w), eq_iff j k, eq_iff k j)

  contains-keys_in :
      (k : String) (m : List (String × V))
      → contains k (map (λ e. e.0) m) ≡ (elim (get_in k m) [ none ↦ false | some _ ↦ true ])
  unfolding get_in contains
  contains-keys_in k [] = refl
  contains-keys_in k ((j, w) ∷ m) = ground (arith, contains-keys_in k m, eq_iff j k, eq_iff k j)

  -- A key is one that a lookup finds.
  pub contains-keys : (k : String) (d : Dict V) → contains k (keys d) ≡ contains_key k d
  unfolding keys get
  contains-keys k d = contains-keys_in k d.entries

pub ascending-keys-empty {ℓ} : (V : Type ℓ) → ascending (keys (empty {V = V})) ≡ true
unfolding keys ascending
ascending-keys-empty V = refl
