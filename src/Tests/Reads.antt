-- ===== src/Tests/Reads.antt =====
-- The read store's theorems at work on a few readings.
use sismatic.Common.{
  ℕ, String, ◌≡◌, none, some, List, [], ◌∷◌, ◌++◌, ◌+◌, ◌<◌, ◌^◌, arith, select, all, not, str_lt,
}
use sismatic.Common.Dict
use sismatic.Api.{Read, number, TimeSpan}
use sismatic.Store.Policy.{add64}
use sismatic.Reads.Sizes.{Layout, sum64, value_bytes, read_bytes, latest_bytes, history_bytes}
use sismatic.Reads.Books.{Slot, record_slot, restate_latest, enforce}
use sismatic.Reads.Ledger.{admit_slot}
use sismatic.Reads.State.{
  MemoryStore, with_budget, upsert_latest, prune, slot_of, latest, between, series, drop_front,
  push_read,
}
use sismatic.Reads.Accounts.{total}
use sismatic.Reads.Budget.{IsBounded, upsert_latest-IsBounded, upsert_latest_evicts}
use sismatic.Reads.Series.{series-push_read}
use sismatic.Common.Dict.{Dict, get-empty}
use sismatic.Reads.Mirrors.{before_first, ExpiresInOrder}
use sismatic.Reads.Consistency.{Consistent, StoreReach, here, next, upserts, StoreReach-Consistent}
use sismatic.Reads.Answers.{latest-upsert_latest, between-prune}

abbrev layout : Layout
layout = record { read = 96; slot = 80; alarm = 48 }

abbrev reading : String → ℕ → String → Read
reading device n at = record { device = device; field = "PORT"; value = number n; at = at }

abbrev empty_store : MemoryStore
empty_store = with_budget none

abbrev one_read : MemoryStore
one_read = upsert_latest layout (reading "left" 1 "1") empty_store

abbrev two_reads : MemoryStore
two_reads = upsert_latest layout (reading "left" 2 "2") one_read

abbrev whole : TimeSpan
whole = record { start = "0"; end = "9" }

fits_twice :
    (total empty_store.books.queue + history_bytes layout (reading "left" 1 "1") < 2 ^ 64)
    × (total one_read.books.queue + history_bytes layout (reading "left" 2 "2") < 2 ^ 64)
unfolding total upsert_latest admit_slot enforce record_slot restate_latest slot_of history_bytes
    read_bytes latest_bytes value_bytes sum64 add64 latest drop_front Dict.get
fits_twice = (ground arith, ground arith)

two_reads-StoreReach : StoreReach layout empty_store two_reads
two_reads-StoreReach =
    next (next here (upserts empty_store (reading "left" 1 "1") fits_twice.0))
      (upserts one_read (reading "left" 2 "2") fits_twice.1)

StoreReach-Consistent_example : Consistent layout two_reads
StoreReach-Consistent_example = StoreReach-Consistent layout none two_reads two_reads-StoreReach

two_reads-Consistent : Consistent layout two_reads
two_reads-Consistent = StoreReach-Consistent layout none two_reads two_reads-StoreReach

two_reads-ExpiresInOrder : ExpiresInOrder "2" two_reads.history
unfolding upsert_latest admit_slot enforce record_slot restate_latest drop_front before_first all
    series
two_reads-ExpiresInOrder d f =
    let first = reading "left" 1 "1" in
    let second = reading "left" 2 "2" in
    ground (
      arith,
      series-push_read second (push_read first empty_store.history) d f,
      series-push_read first empty_store.history d f,
      get-empty {V = Dict (List Read)} d,
    )

between-prune_example :
    between "left" "PORT" whole (prune "2" two_reads).0
    ≡ select (λ r. not (str_lt r.at "2")) (between "left" "PORT" whole two_reads)
between-prune_example =
    between-prune layout "2" two_reads "left" "PORT" whole two_reads-Consistent
      two_reads-ExpiresInOrder

latest-upsert_latest_example : latest "left" "PORT" two_reads ≡ some (reading "left" 2 "2")
latest-upsert_latest_example =
    latest-upsert_latest layout (reading "left" 2 "2") one_read "left" "PORT"

upsert_latest-IsBounded_example : IsBounded (upsert_latest layout (reading "right" 7 "3") two_reads)
upsert_latest-IsBounded_example = upsert_latest-IsBounded layout (reading "right" 7 "3") two_reads

upsert_latest_evicts_example :
    (taken : List Slot) × (taken
        ++ (upsert_latest layout (reading "right" 7 "3") two_reads).books.queue
      ≡ two_reads.books.queue ++ slot_of layout (reading "right" 7 "3") ∷ [])
upsert_latest_evicts_example = upsert_latest_evicts layout (reading "right" 7 "3") two_reads
