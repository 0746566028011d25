-- ===== src/Reads/Consistency.antt =====
-- Histories of the read store, and what holds of the store and its ledger after each of them.
use sismatic.Common.{
  ℕ, String, ◌≡◌, refl, sym, ap, ◌∙◌, subst, Option, none, some, List, select, select-append, ◌+◌,
  ◌<◌, ◌^◌, arith,
}
use sismatic.Common.Dict
use sismatic.Common.Dict.{Dict, get-empty}
use sismatic.Api.{Read, Timestamp}
use sismatic.Reads.Sizes.{Layout, history_bytes, latest_bytes}
use sismatic.Reads.Books.{
  Slot, Books, enforce, record_slot, restate_latest, take_expired, take_device, is_before, is_on,
}
use sismatic.Reads.Ledger.{admit_slot, recap, expire, forget}
use sismatic.Reads.State.{
  MemoryStore, apply, drop_front, with_budget, set_budget, forget_device, upsert_latest, prune,
  put_latest, push_read, slot_of, series, latest,
}
use sismatic.Reads.Budget.{enforce-Evicts}
use sismatic.Reads.Accounts.{
  total, IsBalanced, enforce-IsBalanced, record_slot-IsBalanced, partition_slots_lem,
  take_slots-IsBalanced,
}
use sismatic.Reads.Mirrors.{
  Mirrors, push_read-Mirrors, drop_front-Mirrors, ExpiresInOrder, expire-Mirrors, forget-Mirrors,
}
use sismatic.Reads.Series.{is_of}

-- The stated bytes are those of the queued slots, and the slots of each field those of its reads.
pub record Consistent (l : Layout) (s : MemoryStore) : Type 0 where
  pub balanced : IsBalanced s.books
  pub mirrors : Mirrors l s.books.queue s.history

-- A reading whose bytes fit in 64 bits with those recorded, a new budget, a device forgotten, or a
-- sweep whose cutoff separates each field's reads in order.
pub data StoreStep (l : Layout) : MemoryStore → MemoryStore → Type 0 where
  upserts :
      (s : MemoryStore) (r : Read)
      → total s.books.queue + history_bytes l r < 2 ^ 64
      → StoreStep l s (upsert_latest l r s)
  rebudgets : (s : MemoryStore) (budget : Option ℕ) → StoreStep l s (set_budget budget s).0
  forgets : (s : MemoryStore) (device : String) → StoreStep l s (forget_device l device s).0
  prunes :
      (s : MemoryStore) (before : Timestamp)
      → ExpiresInOrder before s.history
      → StoreStep l s (prune before s).0

pub data StoreReach (l : Layout) (start : MemoryStore) : MemoryStore → Type 0 where
  here : StoreReach l start start
  next : {s s' : MemoryStore} → StoreReach l start s → StoreStep l s s' → StoreReach l start s'

evicted-Consistent :
    (l : Layout) (b : Books) (s : MemoryStore)
    → IsBalanced b
    → Mirrors l b.queue s.history
    → Consistent l (apply (enforce b) s)
evicted-Consistent l b s balanced m = record {
  balanced = enforce-IsBalanced b balanced;
  mirrors = drop_front-Mirrors l (enforce b).0 (enforce b).1.queue s.history (λ d f.
      m d f
      ∙ ap (select (is_of d f)) (sym (enforce-Evicts b).in_order)
      ∙ select-append (is_of d f) (enforce b).0 (enforce b).1.queue);
}

abbrev pair_of : List Slot → List Slot → List Slot × List Slot
pair_of a b = (a, b)

both : {a a' b b' : List Slot} → a ≡ a' → b ≡ b' → pair_of a b ≡ pair_of a' b'
both e f = cc

pub StoreStep-Consistent :
    {l : Layout} {s s' : MemoryStore} → StoreStep l s s' → Consistent l s → Consistent l s'
unfolding upsert_latest admit_slot restate_latest set_budget recap forget_device forget take_device
    prune expire take_expired slot_of record_slot
StoreStep-Consistent {l} (upserts s r fits) k =
    let stored = record s { latest = put_latest r s.latest; history = push_read r s.history } in
    let displaced : ℕ = elim (latest r.device r.field s) [
      | none ↦ 0
      | some old ↦ latest_bytes l old
    ] in
    let b = restate_latest (latest_bytes l r) displaced s.books in
    evicted-Consistent l (record_slot (slot_of l r) b) stored
      (record_slot-IsBalanced (slot_of l r) b fits k.balanced)
      (push_read-Mirrors l r s.books.queue s.history k.mirrors)
StoreStep-Consistent {l} (rebudgets s budget) k =
    evicted-Consistent l (record s.books { budget = budget }) s k.balanced k.mirrors
StoreStep-Consistent {l} (forgets s device) k =
    let (_, kept, _) = partition_slots_lem (is_on device) s.books.queue s.books.history_bytes in
    record {
      balanced = take_slots-IsBalanced (is_on device) s.books k.balanced;
      mirrors =
          subst (λ q. Mirrors l q (Dict.remove device s.history)) (sym kept)
            (forget-Mirrors l device s.books.queue s.history k.mirrors);
    }
StoreStep-Consistent {l} (prunes s before order) k =
    let (gone, kept, _) =
      partition_slots_lem (is_before before) s.books.queue s.books.history_bytes in
    record {
      balanced = take_slots-IsBalanced (is_before before) s.books k.balanced;
      mirrors =
          subst (λ (p : List Slot × List Slot). Mirrors l p.1 (drop_front p.0 s.history))
            (sym (both gone kept))
            (expire-Mirrors l before s.books.queue s.history order k.mirrors);
    }

-- After any history of readings, whose bytes fit in 64 bits with those recorded, new budgets,
-- forgotten devices and sweeps, whose cutoff finds the older reads of each field ahead of the
-- others, from an empty store, the bytes that the ledger states for the history are the sum of
-- those of its queued slots, and the slots queued for each field of each device are those of the
-- reads in its history, in order.
pub StoreReach-Consistent :
    (l : Layout) (budget : Option ℕ) (s : MemoryStore)
    → StoreReach l (with_budget budget) s
    → Consistent l s
unfolding total series select
StoreReach-Consistent l budget s here = record {
  balanced = refl;
  mirrors = λ d f. ground (arith, get-empty {V = Dict (List Read)} d);
}
StoreReach-Consistent l budget s (next {s = before} r step) =
    StoreStep-Consistent step (StoreReach-Consistent l budget before r)
