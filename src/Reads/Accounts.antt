-- ===== src/Reads/Accounts.antt =====
-- The ledger's accounts: the bytes it states for the history are those of the slots it queues.
use sismatic.Common.{
  ℕ, ◌+◌, ◌-◌, ◌<◌, ◌^◌, ◌≡◌, refl, ap, ◌∙◌, Bool, not, List, [], ◌∷◌, ◌++◌, arith, ltb, select,
  inl, inr, Bool-cases,
}
use sismatic.Store.Policy.{add64}
use sismatic.Reads.Books.{
  Slot, Books, used, evict, take_while_over, enforce, record_slot, partition_slots, take_slots,
}
use sismatic.Reads.Budget.{enforce_cases}

-- The sum of the slots' bytes, unbounded.
unfoldable pub total : List Slot → ℕ
total [] = 0
total (slot ∷ rest) = slot.bytes + total rest

pub total-append : (a b : List Slot) → total (a ++ b) ≡ total a + total b
unfolding total
total-append [] b = omega arith
total-append (slot ∷ rest) b = omega (arith, total-append rest b)

abbrev pub IsBalanced : Books → Type 0
IsBalanced b = b.history_bytes ≡ total b.queue

take_while_over-IsBalanced :
    (budget : ℕ) (queue : List Slot) (b : Books)
    → b.queue ≡ queue
    → IsBalanced b
    → IsBalanced (take_while_over budget queue b).1
unfolding take_while_over
take_while_over-IsBalanced budget [] b e h = h
take_while_over-IsBalanced budget (slot ∷ rest) b e h = elim (Bool-cases (ltb budget (used b))) [
  | inr within ↦ rw (within, take_while_over) h
  | inl over ↦
      rw (over, take_while_over)
        (take_while_over-IsBalanced budget rest (evict slot rest b) refl (
          let paid : b.history_bytes ≡ slot.bytes + total rest =
            h ∙ ap total e ∙ unfold total in refl in
          omega (arith, paid)))
]

pub enforce-IsBalanced : (b : Books) → IsBalanced b → IsBalanced (enforce b).1
enforce-IsBalanced b h =
    enforce_cases (λ r. IsBalanced r.1) b (λ _. h)
      (λ budget _. take_while_over-IsBalanced budget b.queue b refl h)

-- A slot may be recorded where the sum stays below 64 bits.
pub record_slot-IsBalanced :
    (slot : Slot) (b : Books)
    → total b.queue + slot.bytes < 2 ^ 64
    → IsBalanced b
    → IsBalanced (record_slot slot b)
unfolding record_slot add64 total
record_slot-IsBalanced slot b fits h = ground (arith, total-append b.queue (slot ∷ []))

-- The two loops separate the slots by the test, in order, and take the bytes of the claimed ones
-- off.
pub partition_slots_lem :
    (claims : Slot → Bool) (queue : List Slot) (bytes : ℕ)
    → ((partition_slots claims queue bytes).0 ≡ select claims queue)
      × ((partition_slots claims queue bytes).1 ≡ select (λ s. not (claims s)) queue)
      × ((partition_slots claims queue bytes).2 ≡ bytes - total (select claims queue))
unfolding partition_slots select total
partition_slots_lem claims [] bytes = (refl, refl, omega arith)
partition_slots_lem claims (slot ∷ rest) bytes = elim (Bool-cases (claims slot)) [
  | inl mine ↦
      let (a, b, c) = partition_slots_lem claims rest (bytes - slot.bytes) in
      rw mine (ap (λ l. slot ∷ l) a, b, ground (arith, c))
  | inr other ↦
      let (a, b, c) = partition_slots_lem claims rest bytes in rw other (a, ap (λ l. slot ∷ l) b, c)
]

total-select :
    (claims : Slot → Bool) (queue : List Slot)
    → total queue ≡ total (select claims queue) + total (select (λ s. not (claims s)) queue)
unfolding total select
total-select claims [] = refl
total-select claims (slot ∷ rest) = ground (arith, total-select claims rest)

pub take_slots-IsBalanced :
    (claims : Slot → Bool) (b : Books) → IsBalanced b → IsBalanced (take_slots claims b).1
take_slots-IsBalanced claims b h =
    let (_, kept, bytes) = partition_slots_lem claims b.queue b.history_bytes in
    ground (arith, kept, bytes, total-select claims b.queue)
