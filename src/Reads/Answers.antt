-- ===== src/Reads/Answers.antt =====
-- What the read store answers after each of its operations.
use sismatic.Common.{
  ℕ, zero, suc, String, ◌≡◌, refl, sym, ap, ◌∙◌, Bool, true, not, ◌&&◌, some, List, [], ◌∷◌, map,
  length, select, all, ◌==◌, eq_iff, arith, str_lt, Bool-cases, inl, inr, if◌then◌else◌,
}
use sismatic.Common.Dict
use sismatic.Common.Dict.{Dict, get-insert, get-update, get-empty, get-remove}
use sismatic.Api.{Read, Timestamp, TimeSpan, within}
use sismatic.Reads.Sizes.{Layout}
use sismatic.Reads.Books.{Slot, take_expired, is_before}
use sismatic.Reads.Ledger.{expire}
use sismatic.Reads.State.{
  History, MemoryStore, without_first, drop_front, drop_one, upsert_latest, prune, latest, series,
  between, slot_of,
}
use sismatic.Reads.Accounts.{partition_slots_lem}
use sismatic.Reads.Series.{is_of, series-drop_one}
use sismatic.Reads.Mirrors.{before_first, ExpiresInOrder, select-select}
use sismatic.Reads.Consistency.{Consistent}

-- The latest reading of a field is the one written last, whatever the budget has evicted; a reading
-- changes that of no other field.
pub latest-upsert_latest :
    (l : Layout) (r : Read) (s : MemoryStore) (device field : String)
    → latest device field (upsert_latest l r s)
      ≡ (if (r.device == device) && (r.field == field) then some r else latest device field s)
unfolding latest upsert_latest
latest-upsert_latest l r s device field = ground (
  arith,
  eq_iff r.device device,
  eq_iff r.field field,
  get-update r.device device Dict.empty (Dict.insert r.field r) s.latest,
  get-insert r.field field r (Dict.get_or r.device Dict.empty s.latest),
  get-empty {V = Read} field,
)

abbrev skip : ℕ → List Read → List Read
skip zero reads = reads
skip (suc n) reads = skip n (without_first reads)

series-drop_front :
    (taken : List Slot) (h : History) (d f : String)
    → series d f (drop_front taken h) ≡ skip (length (select (is_of d f) taken)) (series d f h)
unfolding drop_front select
series-drop_front [] h d f = refl
series-drop_front (slot ∷ taken) h d f =
    ground (arith, series-drop_front taken (drop_one slot h) d f, series-drop_one slot h d f)

abbrev is_old : Timestamp → Read → Bool
is_old cutoff r = str_lt r.at cutoff

all_new :
    (cutoff : Timestamp) (reads : List Read)
    → all (λ t. not (str_lt t cutoff)) (map (λ (r : Read). r.at) reads) ≡ true
    → (select (is_old cutoff) reads ≡ []) × (select (λ r. not (is_old cutoff r)) reads ≡ reads)
unfolding all select
all_new cutoff [] h = (refl, refl)
all_new cutoff (r ∷ reads) h =
    let (a, b) = all_new cutoff reads (ground arith) in (ground (arith, a), ground (arith, b))

skip_old :
    (cutoff : Timestamp) (reads : List Read)
    → before_first cutoff (map (λ (r : Read). r.at) reads) ≡ true
    → skip (length (select (is_old cutoff) reads)) reads ≡ select (λ r. not (is_old cutoff r)) reads
unfolding before_first select
skip_old cutoff [] h = refl
skip_old cutoff (r ∷ reads) h = elim (Bool-cases (str_lt r.at cutoff)) [
  | inl old ↦ rw old (skip_old cutoff reads (ground arith))
  | inr new ↦ let (a, b) = all_new cutoff reads (ground arith) in rw new (rw (a, b))
]

old_slots :
    (l : Layout) (cutoff : Timestamp) (reads : List Read)
    → length (select (is_before cutoff) (map (slot_of l) reads))
      ≡ length (select (is_old cutoff) reads)
unfolding select slot_of
old_slots l cutoff [] = refl
old_slots l cutoff (r ∷ reads) = ground (arith, old_slots l cutoff reads)

select-select_reads :
    (p q : Read → Bool) (reads : List Read) → select p (select q reads) ≡ select q (select p reads)
unfolding select
select-select_reads p q [] = refl
select-select_reads p q (r ∷ rest) = ground (arith, select-select_reads p q rest)

series-prune :
    (l : Layout) (cutoff : Timestamp) (s : MemoryStore) (d f : String)
    → Consistent l s
    → ExpiresInOrder cutoff s.history
    → series d f (prune cutoff s).0.history
      ≡ select (λ r. not (is_old cutoff r)) (series d f s.history)
unfolding prune expire take_expired
series-prune l cutoff s d f k order =
    let (gone, _, _) = partition_slots_lem (is_before cutoff) s.books.queue s.books.history_bytes in
    let reads = series d f s.history in
    ap (λ t. series d f (drop_front t s.history)) gone
    ∙ series-drop_front (select (is_before cutoff) s.books.queue) s.history d f
    ∙ ap (λ q. skip (length q) reads)
        (select-select (is_of d f) (is_before cutoff) s.books.queue
          ∙ ap (select (is_before cutoff)) (sym (k.mirrors d f)))
    ∙ ap (λ n. skip n reads) (old_slots l cutoff reads)
    ∙ skip_old cutoff reads (order d f)

-- After a sweep a query answers what it answered before, less the reads stamped before the cutoff,
-- in a store whose ledger is consistent and where each field's older reads stand first.
pub between-prune :
    (l : Layout) (cutoff : Timestamp) (s : MemoryStore) (device field : String) (span : TimeSpan)
    → Consistent l s
    → ExpiresInOrder cutoff s.history
    → between device field span (prune cutoff s).0
      ≡ select (λ r. not (str_lt r.at cutoff)) (between device field span s)
unfolding between
between-prune l cutoff s device field span k order =
    ap (select (λ r. within span r.at)) (series-prune l cutoff s device field k order)
    ∙ select-select_reads (λ r. within span r.at) (λ r. not (is_old cutoff r))
        (series device field s.history)
