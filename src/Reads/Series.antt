-- ===== src/Reads/Series.antt =====
-- What a push and a dropped front do to the history of each field.
use sismatic.Common.{
  String, ◌≡◌, refl, Bool, ◌&&◌, Option, none, some, List, [], ◌∷◌, ◌++◌, ◌==◌, eq_iff, arith,
  if◌then◌else◌,
}
use sismatic.Common.Dict
use sismatic.Common.Dict.{Dict, get-insert, get-remove, get-update, get-empty}
use sismatic.Api.{Read}
use sismatic.Reads.Books.{Slot}
use sismatic.Reads.State.{History, without_first, pop_front, put_back, drop_one, push_read, series}

-- The slot is one of this field of this device.
abbrev pub is_of : String → String → Slot → Bool
is_of device field slot = (slot.device == device) && (slot.field == field)

abbrev reads_in : String → Dict (List Read) → List Read
reads_in field fields = elim (Dict.get field fields) [ none ↦ [] | some reads ↦ reads ]

reads_in-pop_front :
    (field other : String) (fields : Dict (List Read))
    → reads_in other (pop_front field fields)
      ≡ (if field == other then without_first (reads_in other fields) else reads_in other fields)
reads_in-pop_front field other fields = by_series (Dict.get field fields) refl
  where
    by_rest :
        (rest : List Read)
        → reads_in other (elim rest [
          | [] ↦ Dict.remove field fields
          | r ∷ rest ↦ Dict.insert field (r ∷ rest) fields
        ])
          ≡ (if field == other then rest else reads_in other fields)
    by_rest [] = ground (arith, get-remove field other fields)
    by_rest (r ∷ rest) = ground (arith, get-insert field other (r ∷ rest) fields)

    by_series :
        (m : Option (List Read))
        → Dict.get field fields ≡ m
        → reads_in other (elim m [
          | none ↦ fields
          | some series ↦ elim (without_first series) [
            | [] ↦ Dict.remove field fields
            | r ∷ rest ↦ Dict.insert field (r ∷ rest) fields
          ]
        ])
          ≡ (if field == other
              then without_first (reads_in other fields)
              else reads_in other fields)
    by_series none e = ground (arith, eq_iff field other)
    by_series (some reads) e = ground (arith, eq_iff field other, by_rest (without_first reads))

no_entries :
    (fields : Dict (List Read))
    → fields.entries ≡ []
    → (field : String) → reads_in field fields ≡ []
unfolding Dict.get
no_entries fields e field = ground arith

series-put_back :
    (device d f : String) (fields : Dict (List Read)) (h : History)
    → series d f (put_back device fields h)
      ≡ (if device == d then reads_in f fields else series d f h)
unfolding series
series-put_back device d f fields h = by_entries fields.entries refl
  where
    by_entries :
        (entries : List (String × List Read))
        → fields.entries ≡ entries
        → series d f
            (elim entries [ [] ↦ Dict.remove device h | _ ∷ _ ↦ Dict.insert device fields h ])
          ≡ (if device == d then reads_in f fields else series d f h)
    by_entries [] e = ground (arith, get-remove device d h, no_entries fields e f)
    by_entries (x ∷ rest) e = ground (arith, get-insert device d fields h)

pub series-drop_one :
    (slot : Slot) (h : History) (d f : String)
    → series d f (drop_one slot h)
      ≡ (if is_of d f slot then without_first (series d f h) else series d f h)
unfolding drop_one
series-drop_one slot h d f = by_device (Dict.get slot.device h) refl
  where
    by_device :
        (m : Option (Dict (List Read)))
        → Dict.get slot.device h ≡ m
        → series d f (elim m [
          | none ↦ h
          | some fields ↦ put_back slot.device (pop_front slot.field fields) h
        ])
          ≡ (if is_of d f slot then without_first (series d f h) else series d f h)
    by_device none e = unfold series in ground (arith, eq_iff slot.device d)
    by_device (some fields) e =
        unfold series in
        ground (
          arith,
          eq_iff slot.device d,
          series-put_back slot.device d f (pop_front slot.field fields) h,
          reads_in-pop_front slot.field f fields,
        )

pub series-push_read :
    (r : Read) (h : History) (d f : String)
    → series d f (push_read r h)
      ≡ (if (r.device == d) && (r.field == f) then series d f h ++ r ∷ [] else series d f h)
unfolding series
series-push_read r h d f =
    let fields : Dict (List Read) = Dict.get_or r.device Dict.empty h in
    ground (
      arith,
      eq_iff r.device d,
      eq_iff r.field f,
      get-update r.device d Dict.empty (Dict.update r.field [] (λ series. series ++ r ∷ [])) h,
      get-update r.field f [] (λ series. series ++ r ∷ []) fields,
      get-empty {V = List Read} f,
    )
