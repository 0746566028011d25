-- ===== src/Common/Text.antt =====
-- Decimal rendering of a number, as `format!("{}", n)` writes it.
use Prim.Native.Nat.{ℕ, zero, suc, ◌/◌, ◌%◌}
use Prim.Native.Char.{Char}
use Prim.Native.String.{String, char_at}
use mathlib.Core.Path.{◌≡◌, refl}
use sismatic.Common.Tests.{ltb, if◌then◌else◌}

abbrev pub digit : ℕ → Char
digit n = char_at "0123456789" n

-- The fuel bounds the number of digits; a number has fewer digits than one more than itself.
unfoldable pub decimal_in : ℕ → ℕ → String → String
decimal_in zero n tail = tail
decimal_in (suc fuel) n tail =
    let rest = decimal_in fuel (n / 10) (String.◌∷◌ (digit (n % 10)) tail) in
    if ltb n 10 then String.◌∷◌ (digit n) tail else rest

unfoldable pub decimal : ℕ → String
unfolding decimal_in
decimal n = decimal_in (suc n) n ""

decimal_of_407 : decimal 407 ≡ "407"
unfolding decimal
decimal_of_407 = refl
