-- ===== src/Reads/Sizes.antt =====
-- crates/sismatic-store-memory/src/lib.rs: the estimate of the bytes that an entry holds.
use Prim.Native.String.{len}
use sismatic.Common.{ℕ, List, [], ◌∷◌}
use sismatic.Api.{
  Alarm, ReadValue, text, version, port, number, flag, mac, ack, state, alarms, Read,
}
use sismatic.Store.Policy.{add64}

-- The compiler's layout: `size_of` of the three stored structs.
pub record Layout : Type 0 where
  pub read : ℕ
  pub slot : ℕ
  pub alarm : ℕ

abbrev pub entry_overhead : ℕ
entry_overhead = 64

-- A sum of `u64`.
unfoldable pub sum64 : List ℕ → ℕ
sum64 [] = 0
sum64 (n ∷ ns) = add64 n (sum64 ns)

alarm_bytes : Layout → List Alarm → ℕ
alarm_bytes l [] = 0
alarm_bytes l (a ∷ rest) =
    add64 (sum64 (l.alarm ∷ len a.name ∷ len a.level ∷ [])) (alarm_bytes l rest)

unfoldable pub value_bytes : Layout → ReadValue → ℕ
unfolding alarm_bytes
value_bytes l (text s) = len s
value_bytes l (version s) = len s
value_bytes l (ack s) = len s
value_bytes l (mac m) = len m
value_bytes l (alarms all) = alarm_bytes l all
value_bytes l (port _) = 0
value_bytes l (number _) = 0
value_bytes l (flag _) = 0
value_bytes l (state _) = 0

unfoldable pub read_bytes : Layout → Read → ℕ
read_bytes l r = sum64 (l.read ∷ len r.device ∷ len r.field ∷ len r.at ∷ value_bytes l r.value ∷ [])

unfoldable pub latest_bytes : Layout → Read → ℕ
latest_bytes l r = sum64 (read_bytes l r ∷ len r.field ∷ entry_overhead ∷ [])

unfoldable pub history_bytes : Layout → Read → ℕ
history_bytes l r =
    sum64 (read_bytes l r ∷ l.slot ∷ len r.device ∷ len r.field ∷ len r.at ∷ entry_overhead ∷ [])
