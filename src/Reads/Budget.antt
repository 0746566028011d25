-- ===== src/Reads/Budget.antt =====
-- The budget: what an eviction leaves, and which slots it takes.
use sismatic.Common.{
  ℕ, ◌≡◌, refl, sym, ap, ◌∙◌, false, ◌⊎◌, inl, inr, Option, none, some, List, [], ◌∷◌, ◌++◌, arith,
  ltb, Bool-cases,
}
use sismatic.Api.{Read}
use sismatic.Reads.Sizes.{Layout}
use sismatic.Reads.Books.{
  Slot, Books, used, evict, take_while_over, take_over_budget, enforce, record_slot, restate_latest,
}
use sismatic.Reads.Ledger.{admit_slot}
use sismatic.Reads.State.{
  MemoryStore, usage, over_budget, upsert_latest, slot_of, apply, put_latest, push_read,
}

-- What the books are after an eviction that took these slots.
pub record Evicts (b : Books) (r : List Slot × Books) : Type 0 where
  pub in_order : r.0 ++ r.1.queue ≡ b.queue
  pub budget : r.1.budget ≡ b.budget
  pub latest_bytes : r.1.latest_bytes ≡ b.latest_bytes

-- The books are within the budget, or nothing is left to evict.
abbrev IsWithin : ℕ → Books → Type 0
IsWithin budget b = (ltb budget (used b) ≡ false) ⊎ (b.queue ≡ [])

take_while_over_lem :
    (budget : ℕ) (queue : List Slot) (b : Books)
    → b.queue ≡ queue
    → Evicts b (take_while_over budget queue b) × IsWithin budget (take_while_over budget queue b).1
unfolding take_while_over
take_while_over_lem budget [] b e =
    (record { in_order = refl; budget = refl; latest_bytes = refl }, inr e)
take_while_over_lem budget (slot ∷ rest) b e = elim (Bool-cases (ltb budget (used b))) [
  | inr within ↦
      rw (within, take_while_over)
        (record { in_order = refl; budget = refl; latest_bytes = refl }, inl within)
  | inl over ↦
      let (later, bound) = take_while_over_lem budget rest (evict slot rest b) refl in
      rw (over, take_while_over)
        (
          record {
            in_order = ap (λ q. slot ∷ q) later.in_order ∙ sym e;
            budget = later.budget;
            latest_bytes = later.latest_bytes;
          },
          bound,
        )
]

pub enforce_cases {ℓ} :
    (P : List Slot × Books → Type ℓ) (b : Books)
    → (b.budget ≡ none → P ([], b))
    → ((budget : ℕ) → b.budget ≡ some budget → P (take_while_over budget b.queue b))
    → P (enforce b)
unfolding enforce take_over_budget
enforce_cases P b unbounded capped = by_budget b.budget refl
  where
    by_budget :
        (m : Option ℕ)
        → b.budget ≡ m
        → P (elim m [ none ↦ ([], b) | some budget ↦ take_while_over budget b.queue b ])
    by_budget none e = unbounded e
    by_budget (some budget) e = capped budget e

pub enforce-Evicts : (b : Books) → Evicts b (enforce b)
enforce-Evicts b =
    enforce_cases (Evicts b) b (λ _. record { in_order = refl; budget = refl; latest_bytes = refl })
      (λ budget _. (take_while_over_lem budget b.queue b refl).0)

-- The store is within its budget, or it holds no history.
abbrev pub IsBounded : MemoryStore → Type 0
IsBounded s = (over_budget (usage s) ≡ false) ⊎ ((usage s).entries ≡ 0)

enforce-IsBounded : (b : Books) (s : MemoryStore) → IsBounded (apply (enforce b) s)
unfolding usage over_budget
enforce-IsBounded b s =
    enforce_cases (λ r. IsBounded (apply r s)) b (λ e. inl (ground arith))
      (λ budget e.
        let (kept, bound) = take_while_over_lem budget b.queue b refl in
        let cap : (take_while_over budget b.queue b).1.budget ≡ some budget = kept.budget ∙ e in
        elim bound [
          | inl within ↦ inl (ground (arith, cap, within))
          | inr empty ↦ inr (ground (arith, empty))
        ])

-- After any reading the store is within its budget, or it holds no history.
pub upsert_latest-IsBounded :
    (l : Layout) (r : Read) (s : MemoryStore) → IsBounded (upsert_latest l r s)
unfolding upsert_latest admit_slot
upsert_latest-IsBounded l r s =
    enforce-IsBounded _
      (record s { latest = put_latest r s.latest; history = push_read r s.history })

-- A reading's slot joins the queue at its end, and the eviction that follows takes slots from its
-- front: the slots taken and the slots left are the queue as it was and the new slot, in order.
pub upsert_latest_evicts :
    (l : Layout) (r : Read) (s : MemoryStore)
    → (taken : List Slot) × (taken ++ (upsert_latest l r s).books.queue
        ≡ s.books.queue ++ slot_of l r ∷ [])
unfolding upsert_latest admit_slot record_slot restate_latest
upsert_latest_evicts l r s = (_, (enforce-Evicts _).in_order)
