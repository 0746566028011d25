-- ===== src/Reads/Books.antt =====
-- crates/sismatic-store-memory/src/lib.rs: `Books`, the accounts under the ledger's mutex.
use sismatic.Common.{
  ℕ, ◌-◌, String, Bool, Option, none, some, List, [], ◌∷◌, ◌++◌, ltb, str_lt, ◌==◌, if◌then◌else◌,
}
use sismatic.Api.{Timestamp}
use sismatic.Store.Policy.{add64}

pub record Slot : Type 0 where
  pub device : String
  pub field : String
  pub at : Timestamp
  pub bytes : ℕ  -- u64

pub record Books : Type 0 where
  pub budget : Option ℕ
  pub queue : List Slot
  pub history_bytes : ℕ
  pub latest_bytes : ℕ
  pub evicted : ℕ

unfoldable pub used : Books → ℕ
used b = add64 b.latest_bytes b.history_bytes

-- `record` in the source.
unfoldable pub record_slot : Slot → Books → Books
record_slot slot b = record b {
  history_bytes = add64 b.history_bytes slot.bytes;
  queue = b.queue ++ slot ∷ [];
}

-- Subtraction on ℕ stops at 0, as `saturating_sub` does.
unfoldable pub restate_latest : ℕ → ℕ → Books → Books
restate_latest added removed b = record b { latest_bytes = add64 b.latest_bytes added - removed }

-- The books after the slot at the front of the queue, ahead of `rest`, was taken for the budget.
abbrev pub evict : Slot → List Slot → Books → Books
evict slot rest b = record b {
  queue = rest;
  history_bytes = b.history_bytes - slot.bytes;
  evicted = add64 b.evicted 1;
}

-- The loop of `take_over_budget`, on the queue that the books hold.
unfoldable pub take_while_over : ℕ → List Slot → Books → List Slot × Books
take_while_over budget [] b = ([], b)
take_while_over budget (slot ∷ rest) b =
    let later = take_while_over budget rest (evict slot rest b) in
    if ltb budget (used b) then (slot ∷ later.0, later.1) else ([], b)

unfoldable pub take_over_budget : ℕ → Books → List Slot × Books
take_over_budget budget b = take_while_over budget b.queue b

unfoldable pub enforce : Books → List Slot × Books
enforce b = elim b.budget [ none ↦ ([], b) | some budget ↦ take_over_budget budget b ]

-- The loop that `take_expired` and `take_device` share: the slots that it claims, the ones it
-- keeps, and the bytes that are left.
unfoldable pub partition_slots : (Slot → Bool) → List Slot → ℕ → List Slot × List Slot × ℕ
partition_slots claims [] bytes = ([], [], bytes)
partition_slots claims (slot ∷ rest) bytes =
    let claimed = partition_slots claims rest (bytes - slot.bytes) in
    let passed = partition_slots claims rest bytes in
    if claims slot
    then (slot ∷ claimed.0, claimed.1, claimed.2)
    else (passed.0, slot ∷ passed.1, passed.2)

abbrev pub take_slots : (Slot → Bool) → Books → List Slot × Books
take_slots claims b =
    let (taken, kept, bytes) = partition_slots claims b.queue b.history_bytes in
    (taken, record b { queue = kept; history_bytes = bytes })

abbrev pub is_before : Timestamp → Slot → Bool
is_before before slot = str_lt slot.at before

unfoldable pub take_expired : Timestamp → Books → List Slot × Books
take_expired before b = take_slots (is_before before) b

abbrev pub is_on : String → Slot → Bool
is_on device slot = slot.device == device

unfoldable pub take_device : String → Books → List Slot × Books
take_device device b = take_slots (is_on device) b
