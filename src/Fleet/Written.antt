-- ===== src/Fleet/Written.antt =====
-- A set of disabled fields that has been resolved is written and read back as it is.
use sismatic.Common.{
  String, ◌≡◌, sym, ap, ◌∙◌, Bool, true, false, none, some, List, [], ◌∷◌, ◌++◌, ◌==◌, eq_iff,
  eq_refl, arith, all, ascending, ascending-set_insert, ascending_before, all-set_insert,
  set_insert, set_insert_last, ok, Option-cases, inl, inr,
}
use mathlib.Core.List.{append_assoc, append-nil}
use sismatic.Fleet.Resolve.{canonical_field, canonical_set}
use sismatic.Fleet.Canonical.{canonical_field_idem}

abbrev pub is_canonical : String → Bool
is_canonical name = elim (canonical_field name) [ none ↦ false | some n ↦ n == name ]

canonical_field-is_canonical :
    (written name : String) → canonical_field written ≡ some name → is_canonical name ≡ true
canonical_field-is_canonical written name e =
    ground (arith, canonical_field_idem written name e, eq_refl name)

is_canonical-canonical_field :
    (name : String) → is_canonical name ≡ true → canonical_field name ≡ some name
is_canonical-canonical_field name h = elim (Option-cases (canonical_field name)) [
  | inl e ↦ absurd (ground (arith, e))
  | inr (n, e) ↦ ground (arith, e, eq_iff n name)
]

pub canonical_set-ascending :
    (device : String) (written found out : List String)
    → canonical_set device written found ≡ ok out
    → ascending found ≡ true
    → all is_canonical found ≡ true
    → (ascending out ≡ true) × (all is_canonical out ≡ true)
unfolding canonical_set
canonical_set-ascending device [] found out h up canonical = (ground arith, ground arith)
canonical_set-ascending device (w ∷ rest) found out h up canonical =
    elim (Option-cases (canonical_field w)) [
      | inl e ↦ absurd (ground (arith, e))
      | inr (name, e) ↦
          canonical_set-ascending device rest (set_insert name found) out (ground (arith, e))
            (ascending-set_insert name found up)
            (all-set_insert is_canonical name found (canonical_field-is_canonical w name e)
              canonical)
    ]

pub canonical_set_fixed :
    (device : String) (fields found : List String)
    → ascending (found ++ fields) ≡ true
    → all is_canonical fields ≡ true
    → canonical_set device fields found ≡ ok (found ++ fields)
unfolding canonical_set all
canonical_set_fixed device [] found up canonical = ap ok (sym (append-nil found))
canonical_set_fixed device (name ∷ fields) found up canonical =
    let named : canonical_field name ≡ some name =
      is_canonical-canonical_field name (ground arith) in
    let last : set_insert name found ≡ found ++ name ∷ [] =
      set_insert_last name found (ascending_before found name fields up) in
    let moved = append_assoc found (name ∷ []) fields in
    let again =
      canonical_set_fixed device fields (found ++ name ∷ []) (ap ascending moved ∙ up)
        (ground arith) in
    let step : canonical_set device (name ∷ fields) found
        ≡ canonical_set device fields (found ++ name ∷ []) =
      ground (arith, named, last) in
    step ∙ again ∙ ap ok moved
