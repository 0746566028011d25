-- ===== src/Sync/Pairs.antt =====
-- `BTreeMap<(String, String), V>`: a map of maps, in the order of the first text and then of the
-- second; a map that is left empty stays, which no lookup tells.
use sismatic.Common.{
  String, ◌≡◌, refl, ap, Bool, true, false, ◌&&◌, ◌||◌, Option, none, some, List, [], ◌∷◌, ◌++◌,
  ◌==◌, eq_iff, eq_refl, arith, inl, inr, ◌∙◌, Option-cases, if◌then◌else◌,
}
use sismatic.Common.Dict
use sismatic.Common.Dict.{Dict, Listed, get-insert, get-update, get-remove, get-empty}

abbrev pub Key : Type 0
Key = String × String

abbrev pub same_key : Key → Key → Bool
same_key k j = (k.0 == j.0) && (k.1 == j.1)

pub same_key_sound : (k j : Key) → same_key k j ≡ true → k ≡ j
same_key_sound (a, b) (c, d) h =
    let first : a ≡ c = ground (arith, eq_iff a c) in
    let second : b ≡ d = ground (arith, eq_iff b d) in cc

unfoldable pub has_key : Key → List Key → Bool
has_key k [] = false
has_key k (j ∷ keys) = same_key k j || has_key k keys

pub has_key-append : (k : Key) (a b : List Key) → has_key k (a ++ b) ≡ (has_key k a || has_key k b)
unfolding has_key
has_key-append k [] b = refl
has_key-append k (j ∷ a) b = ground (arith, has_key-append k a b)

module _ {ℓ} {V : Type ℓ} where
  unfoldable pub get2 : Key → Dict (Dict V) → Option V
  get2 k m = elim (Dict.get k.0 m) [ none ↦ none | some inner ↦ Dict.get k.1 inner ]

  unfoldable pub insert2 : Key → V → Dict (Dict V) → Dict (Dict V)
  insert2 k v m = Dict.update k.0 Dict.empty (Dict.insert k.1 v) m

  unfoldable pub remove2 : Key → Dict (Dict V) → Dict (Dict V)
  remove2 k m = elim (Dict.get k.0 m) [
    | none ↦ m
    | some inner ↦ Dict.insert k.0 (Dict.remove k.1 inner) m
  ]

  row_keys : String → List (String × V) → List Key
  row_keys a [] = []
  row_keys a ((b, _) ∷ rest) = (a, b) ∷ row_keys a rest

  all_keys : List (String × Dict V) → List Key
  unfolding row_keys
  all_keys [] = []
  all_keys ((a, inner) ∷ rest) = row_keys a inner.entries ++ all_keys rest

  unfoldable pub keys2 : Dict (Dict V) → List Key
  unfolding all_keys
  keys2 m = all_keys m.entries

  pub get2-insert2 :
      (k j : Key) (v : V) (m : Dict (Dict V))
      → get2 j (insert2 k v m) ≡ (if same_key k j then some v else get2 j m)
  unfolding get2 insert2
  get2-insert2 k j v m = ground (
    arith,
    eq_iff k.0 j.0,
    eq_iff k.1 j.1,
    get-update k.0 j.0 Dict.empty (Dict.insert k.1 v) m,
    get-insert k.1 j.1 v (Dict.get_or k.0 Dict.empty m),
    get-empty {V = V} j.1,
  )

  pub get2-remove2 :
      (k j : Key) (m : Dict (Dict V))
      → get2 j (remove2 k m) ≡ (if same_key k j then none else get2 j m)
  unfolding get2 remove2
  get2-remove2 k j m = by_row (Dict.get k.0 m) refl
    where
      by_row :
          (row : Option (Dict V))
          → Dict.get k.0 m ≡ row
          → get2 j (elim row [ none ↦ m | some inner ↦ Dict.insert k.0 (Dict.remove k.1 inner) m ])
            ≡ (if same_key k j then none else get2 j m)
      by_row none e = ground (arith, eq_iff k.0 j.0)
      by_row (some inner) e = ground (
        arith,
        eq_iff k.0 j.0,
        get-insert k.0 j.0 (Dict.remove k.1 inner) m,
        get-remove k.1 j.1 inner,
      )

  row_keys-Listed :
      (a b : String) (v : V) (row : List (String × V))
      → Listed b v row
      → has_key (a, b) (row_keys a row) ≡ true
  unfolding has_key row_keys
  row_keys-Listed a b v [] e = elim e [ ]
  row_keys-Listed a b v ((j, w) ∷ row) (Listed.first same _) = ground (arith, eq_refl a, eq_iff b j)
  row_keys-Listed a b v ((j, w) ∷ row) (Listed.later rest) =
      ground (arith, row_keys-Listed a b v row rest)

  all_keys-Listed :
      (k : Key) (v : V) (inner : Dict V) (rows : List (String × Dict V))
      → Listed k.0 inner rows
      → Listed k.1 v inner.entries
      → has_key k (all_keys rows) ≡ true
  unfolding all_keys
  all_keys-Listed k v inner [] e f = elim e [ ]
  all_keys-Listed k v inner ((a, row) ∷ rows) (Listed.first same is) f =
      has_key-append k (row_keys a row.entries) (all_keys rows)
      ∙ ap (λ x. x || has_key k (all_keys rows))
          (ap (λ (r : Dict V). has_key k (row_keys a r.entries)) is
            ∙ ap (λ x. has_key k (row_keys x inner.entries)) same
            ∙ row_keys-Listed k.0 k.1 v inner.entries f)
  all_keys-Listed k v inner ((a, row) ∷ rows) (Listed.later rest) f = ground (
    arith,
    has_key-append k (row_keys a row.entries) (all_keys rows),
    all_keys-Listed k v inner rows rest f,
  )

  -- Every pair that a lookup finds is among the keys.
  pub has_key-keys2 :
      (k : Key) (v : V) (m : Dict (Dict V)) → get2 k m ≡ some v → has_key k (keys2 m) ≡ true
  unfolding get2 keys2
  has_key-keys2 k v m e = elim (Option-cases (Dict.get k.0 m)) [
    | inl none_there ↦ absurd (ground (arith, none_there))
    | inr (inner, found) ↦
        all_keys-Listed k v inner m.entries (Dict.get-Listed k.0 inner m found)
          (Dict.get-Listed k.1 v inner (ground (arith, found)))
  ]
