-- ===== src/Reads/State.antt =====
-- crates/sismatic-store-memory/src/lib.rs: `MemoryStore` and its operations; and the figures that
-- crates/sismatic-store/src/lifecycle.rs reports. The two maps and the ledger are locked one after
-- another in the source; an operation is one function on all three.
use sismatic.Common.{
  ℕ, String, Bool, false, Option, none, some, List, [], ◌∷◌, ◌++◌, map, length, select, ltb,
}
use sismatic.Common.Dict
use sismatic.Common.Dict.{Dict}
use sismatic.Api.{Read, Timestamp, TimeSpan, within}
use sismatic.Reads.Sizes.{Layout, sum64, latest_bytes, history_bytes}
use sismatic.Reads.Books.{Slot, Books, used}
use sismatic.Reads.Ledger.{admit_slot, recap, expire, forget}

abbrev pub History : Type 0
History = Dict (Dict (List Read))

pub record MemoryStore : Type 0 where
  pub latest : Dict (Dict Read)
  pub history : History
  pub books : Books

pub record Swept : Type 0 where
  pub entries : ℕ
  pub bytes : ℕ

pub record Usage : Type 0 where
  pub bytes : ℕ
  pub entries : ℕ
  pub budget : Option ℕ
  pub evicted : ℕ

unfoldable pub over_budget : Usage → Bool
over_budget u = elim u.budget [ none ↦ false | some cap ↦ ltb cap u.bytes ]

abbrev pub with_budget : Option ℕ → MemoryStore
with_budget budget = record {
  latest = Dict.empty;
  history = Dict.empty;
  books = record { budget = budget; queue = []; history_bytes = 0; latest_bytes = 0; evicted = 0 };
}

abbrev pub without_first : List Read → List Read
without_first [] = []
without_first (_ ∷ rest) = rest

-- The device's fields after the front of one series is popped; a series left empty goes.
abbrev pub pop_front : String → Dict (List Read) → Dict (List Read)
pop_front field fields = elim (Dict.get field fields) [
  | none ↦ fields
  | some series ↦ elim (without_first series) [
    | [] ↦ Dict.remove field fields
    | r ∷ rest ↦ Dict.insert field (r ∷ rest) fields
  ]
]

-- A device left without a series goes.
abbrev pub put_back : String → Dict (List Read) → History → History
put_back device fields h = elim fields.entries [
  | [] ↦ Dict.remove device h
  | _ ∷ _ ↦ Dict.insert device fields h
]

unfoldable pub drop_one : Slot → History → History
drop_one slot h = elim (Dict.get slot.device h) [
  | none ↦ h
  | some fields ↦ put_back slot.device (pop_front slot.field fields) h
]

unfoldable pub drop_front : List Slot → History → History
drop_front [] h = h
drop_front (slot ∷ slots) h = drop_front slots (drop_one slot h)

-- The books have decided which slots go.
abbrev pub apply : List Slot × Books → MemoryStore → MemoryStore
apply (taken, books) s = record s { history = drop_front taken s.history; books = books }

unfoldable pub set_budget : Option ℕ → MemoryStore → MemoryStore × ℕ
set_budget budget s = let r = recap budget s.books in (apply r s, length r.0)

unfoldable pub forget_device : Layout → String → MemoryStore → MemoryStore × ℕ
forget_device l device s =
    let dropped : ℕ = elim (Dict.get device s.latest) [
      | none ↦ 0
      | some fields ↦ sum64 (map (latest_bytes l) (Dict.values fields))
    ] in
    let (slots, books) = forget device dropped s.books in
    (
      record {
        latest = Dict.remove device s.latest;
        history = Dict.remove device s.history;
        books = books;
      },
      length slots,
    )

unfoldable pub slot_of : Layout → Read → Slot
slot_of l r = record { device = r.device; field = r.field; at = r.at; bytes = history_bytes l r }

-- `entry(device).or_default()` with the read put under its field.
abbrev pub put_latest : Read → Dict (Dict Read) → Dict (Dict Read)
put_latest r = Dict.update r.device Dict.empty (Dict.insert r.field r)

abbrev pub push_read : Read → History → History
push_read r = Dict.update r.device Dict.empty (Dict.update r.field [] (λ series. series ++ r ∷ []))

unfoldable pub latest : String → String → MemoryStore → Option Read
latest device field s = elim (Dict.get device s.latest) [
  | none ↦ none
  | some fields ↦ Dict.get field fields
]

unfoldable pub latest_all : String → MemoryStore → List Read
latest_all device s = elim (Dict.get device s.latest) [
  | none ↦ []
  | some fields ↦ Dict.values fields
]

-- The reads that the history holds for the field, oldest first.
unfoldable pub series : String → String → History → List Read
series device field h = elim (Dict.get device h) [
  | none ↦ []
  | some fields ↦ elim (Dict.get field fields) [ none ↦ [] | some reads ↦ reads ]
]

unfoldable pub between : String → String → TimeSpan → MemoryStore → List Read
unfolding series
between device field span s = select (λ r. within span r.at) (series device field s.history)

unfoldable pub upsert_latest : Layout → Read → MemoryStore → MemoryStore
upsert_latest l r s =
    let displaced : ℕ = elim (latest r.device r.field s) [
      | none ↦ 0
      | some old ↦ latest_bytes l old
    ] in
    let stored = record s { latest = put_latest r s.latest; history = push_read r s.history } in
    apply (admit_slot (latest_bytes l r) displaced (slot_of l r) s.books) stored

unfoldable pub prune : Timestamp → MemoryStore → MemoryStore × Swept
prune before s =
    let r = expire before s.books in
    (apply r s, record { entries = length r.0; bytes = sum64 (map (λ slot. slot.bytes) r.0) })

unfoldable pub usage : MemoryStore → Usage
usage s = record {
  bytes = used s.books;
  entries = length s.books.queue;
  budget = s.books.budget;
  evicted = s.books.evicted;
}
