-- ===== src/Reads/Ledger.antt =====
-- crates/sismatic-store-memory/src/lib.rs: `Ledger`, each method one critical section on the books.
use sismatic.Common.{ℕ, String, Option, List}
use sismatic.Api.{Timestamp}
use sismatic.Reads.Books.{
  Slot, Books, record_slot, restate_latest, enforce, take_expired, take_device,
}

unfoldable pub admit_slot : ℕ → ℕ → Slot → Books → List Slot × Books
admit_slot added displaced slot b = enforce (record_slot slot (restate_latest added displaced b))

unfoldable pub recap : Option ℕ → Books → List Slot × Books
recap budget b = enforce (record b { budget = budget })

unfoldable pub expire : Timestamp → Books → List Slot × Books
expire before b = take_expired before b

unfoldable pub forget : String → ℕ → Books → List Slot × Books
forget device latest b = take_device device (restate_latest 0 latest b)
