-- ===== src/Reads/Mirrors.antt =====
-- The ledger's queue mirrors the history: the slots of a field are those of its reads, in order.
use mathlib.Core.List.{append-nil}
use sismatic.Common.{
  String, ◌≡◌, refl, sym, ap, ◌∙◌, subst, Bool, true, not, List, [], ◌∷◌, ◌++◌, map, select,
  select-append, all, ◌==◌, eq_iff, arith, str_lt, Bool-cases, inl, inr, if◌then◌else◌,
}
use sismatic.Common.Dict
use sismatic.Common.Dict.{get-remove}
use sismatic.Api.{Read, Timestamp}
use sismatic.Reads.Sizes.{Layout}
use sismatic.Reads.Books.{Slot, is_before, is_on}
use sismatic.Reads.State.{History, without_first, drop_front, drop_one, push_read, series, slot_of}
use sismatic.Reads.Series.{is_of, series-drop_one, series-push_read}

abbrev pub Mirrors : Layout → List Slot → History → Type 0
Mirrors l queue h =
    (device field : String)
    → map (slot_of l) (series device field h) ≡ select (is_of device field) queue

map-push :
    (l : Layout) (reads : List Read) (r : Read)
    → map (slot_of l) (reads ++ r ∷ []) ≡ map (slot_of l) reads ++ slot_of l r ∷ []
map-push l [] r = refl
map-push l (x ∷ reads) r = ap (λ q. slot_of l x ∷ q) (map-push l reads r)

pub push_read-Mirrors :
    (l : Layout) (r : Read) (queue : List Slot) (h : History)
    → Mirrors l queue h
    → Mirrors l (queue ++ slot_of l r ∷ []) (push_read r h)
unfolding slot_of select
push_read-Mirrors l r queue h m d f = elim (Bool-cases (is_of d f (slot_of l r))) [
  | inl mine ↦
      ap (map (slot_of l)) (series-push_read r h d f ∙ rw mine)
      ∙ map-push l (series d f h) r
      ∙ ap (λ q. q ++ slot_of l r ∷ []) (m d f)
      ∙ sym (select-append (is_of d f) queue (slot_of l r ∷ []) ∙ rw mine)
  | inr other ↦
      let skipped : select (is_of d f) (slot_of l r ∷ []) ≡ [] = rw other in
      ap (map (slot_of l)) (series-push_read r h d f ∙ rw other)
      ∙ m d f
      ∙ sym (
          select-append (is_of d f) queue (slot_of l r ∷ [])
          ∙ ap (λ q. select (is_of d f) queue ++ q) skipped
          ∙ append-nil (select (is_of d f) queue))
]

rest_of :
    (l : Layout) (reads : List Read) (slot : Slot) (q : List Slot)
    → map (slot_of l) reads ≡ slot ∷ q
    → map (slot_of l) (without_first reads) ≡ q
rest_of l [] slot q e = absurd (cc)
rest_of l (r ∷ reads) slot q e = cc

-- Where the slots of each field are those dropped and then those kept, dropping leaves the kept.
pub drop_front-Mirrors :
    (l : Layout) (taken kept : List Slot) (h : History)
    → ((d f : String)
        → map (slot_of l) (series d f h) ≡ select (is_of d f) taken ++ select (is_of d f) kept)
    → Mirrors l kept (drop_front taken h)
unfolding drop_front select
drop_front-Mirrors l [] kept h m = m
drop_front-Mirrors l (slot ∷ taken) kept h m =
    drop_front-Mirrors l taken kept (drop_one slot h) (λ d f. elim (Bool-cases (is_of d f slot)) [
      | inl mine ↦
          let first : map (slot_of l) (series d f h)
              ≡ slot ∷ (select (is_of d f) taken ++ select (is_of d f) kept) =
            m d f ∙ rw mine in
          ap (map (slot_of l)) (series-drop_one slot h d f ∙ rw mine)
          ∙ rest_of l (series d f h) slot _ first
      | inr other ↦ ap (map (slot_of l)) (series-drop_one slot h d f ∙ rw other) ∙ m d f ∙ rw other
    ])

-- The times before the cutoff stand ahead of the others.
unfoldable pub before_first : Timestamp → List Timestamp → Bool
before_first cutoff [] = true
before_first cutoff (at ∷ rest) =
    let later = before_first cutoff rest in
    if str_lt at cutoff then later else all (λ t. not (str_lt t cutoff)) rest

none_before :
    (cutoff : Timestamp) (slots : List Slot)
    → all (λ t. not (str_lt t cutoff)) (map (λ (s : Slot). s.at) slots) ≡ true
    → (select (is_before cutoff) slots ≡ [])
      × (select (λ s. not (is_before cutoff s)) slots ≡ slots)
unfolding all select
none_before cutoff [] h = (refl, refl)
none_before cutoff (slot ∷ rest) h =
    let (a, b) = none_before cutoff rest (ground arith) in (ground (arith, a), ground (arith, b))

split_at :
    (cutoff : Timestamp) (slots : List Slot)
    → before_first cutoff (map (λ (s : Slot). s.at) slots) ≡ true
    → slots ≡ select (is_before cutoff) slots ++ select (λ s. not (is_before cutoff s)) slots
unfolding before_first select
split_at cutoff [] h = refl
split_at cutoff (slot ∷ rest) h = elim (Bool-cases (str_lt slot.at cutoff)) [
  | inl old ↦ rw old (ap (λ q. slot ∷ q) (split_at cutoff rest (ground arith)))
  | inr new ↦ let (a, b) = none_before cutoff rest (ground arith) in rw new (rw (a, b))
]

pub select-select :
    (p q : Slot → Bool) (slots : List Slot) → select p (select q slots) ≡ select q (select p slots)
unfolding select
select-select p q [] = refl
select-select p q (slot ∷ rest) = ground (arith, select-select p q rest)

times_of :
    (l : Layout) (reads : List Read)
    → map (λ (s : Slot). s.at) (map (slot_of l) reads) ≡ map (λ (r : Read). r.at) reads
unfolding slot_of
times_of l [] = refl
times_of l (r ∷ reads) = ap (λ q. r.at ∷ q) (times_of l reads)

-- In each field the reads stamped before the cutoff stand ahead of the others.
abbrev pub ExpiresInOrder : Timestamp → History → Type 0
ExpiresInOrder cutoff h =
    (device field : String)
    → before_first cutoff (map (λ (r : Read). r.at) (series device field h)) ≡ true

pub expire-Mirrors :
    (l : Layout) (cutoff : Timestamp) (queue : List Slot) (h : History)
    → ExpiresInOrder cutoff h
    → Mirrors l queue h
    → Mirrors l
        (select (λ s. not (is_before cutoff s)) queue)
        (drop_front (select (is_before cutoff) queue) h)
expire-Mirrors l cutoff queue h order m = drop_front-Mirrors l _ _ h (λ d f.
    let old = is_before cutoff in
    m d f
    ∙ split_at cutoff (select (is_of d f) queue) (
        subst (λ ts. before_first cutoff ts ≡ true)
          (sym (times_of l (series d f h)) ∙ ap (map (λ (s : Slot). s.at)) (m d f)) (order d f))
    ∙ rw (select-select old (is_of d f) queue, select-select (λ s. not (old s)) (is_of d f) queue))

on_other :
    (device d f : String) (queue : List Slot)
    → select (is_of d f) (select (λ s. not (is_on device s)) queue)
      ≡ (if device == d then [] else select (is_of d f) queue)
unfolding select
on_other device d f [] = ground arith
on_other device d f (slot ∷ rest) = ground (
  arith,
  eq_iff slot.device device,
  eq_iff slot.device d,
  eq_iff device d,
  on_other device d f rest,
)

pub forget-Mirrors :
    (l : Layout) (device : String) (queue : List Slot) (h : History)
    → Mirrors l queue h
    → Mirrors l (select (λ s. not (is_on device s)) queue) (Dict.remove device h)
unfolding series
forget-Mirrors l device queue h m d f =
    ground (arith, get-remove device d h, on_other device d f queue, m d f)
