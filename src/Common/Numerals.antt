-- ===== src/Common/Numerals.antt =====
-- A number that is rendered in decimal is parsed again.
use Prim.Native.Nat.{ℕ, zero, suc, ◌+◌, ◌*◌, ◌/◌, ◌%◌}
use Prim.Native.Char.{code}
use Prim.Native.String.{String}
use mathlib.Core.Path.{◌≡◌, refl, ap, ◌∙◌}
use mathlib.Core.Bool.{true, false}
use mathlib.Core.Option.{none, some}
use native.Mathlib.Omega.{arith}
use sismatic.Common.Tests.{eqb, ltb, leb, Bool-cases, if◌then◌else◌}
use mathlib.Core.Logic.{inl, inr}
use sismatic.Common.Parsing.{digits_from, digits_of, parse_number}
use sismatic.Common.Text.{digit, decimal_in, decimal}

-- A digit is read after the number so far.
digits_from-digit :
    (bound m : ℕ) (tail : String) (d : ℕ)
    → ltb d 10 ≡ true
    → digits_from bound m (String.◌∷◌ (digit d) tail)
      ≡ (if leb (m * 10 + d) bound then digits_from bound (m * 10 + d) tail else none)
unfolding digits_from
digits_from-digit bound m tail zero h = refl
digits_from-digit bound m tail (suc zero) h = refl
digits_from-digit bound m tail (suc (suc zero)) h = refl
digits_from-digit bound m tail (suc (suc (suc zero))) h = refl
digits_from-digit bound m tail (suc (suc (suc (suc zero)))) h = refl
digits_from-digit bound m tail (suc (suc (suc (suc (suc zero))))) h = refl
digits_from-digit bound m tail (suc (suc (suc (suc (suc (suc zero)))))) h = refl
digits_from-digit bound m tail (suc (suc (suc (suc (suc (suc (suc zero))))))) h = refl
digits_from-digit bound m tail (suc (suc (suc (suc (suc (suc (suc (suc zero)))))))) h = refl
digits_from-digit bound m tail (suc (suc (suc (suc (suc (suc (suc (suc (suc zero))))))))) h = refl
digits_from-digit bound m tail (suc (suc (suc (suc (suc (suc (suc (suc (suc (suc d)))))))))) h =
    absurd (ground arith)

digits_from-decimal_in :
    (bound fuel n : ℕ) (tail : String)
    → ltb n fuel ≡ true
    → digits_from bound 0 (decimal_in fuel n tail)
      ≡ (if leb n bound then digits_from bound n tail else none)
unfolding decimal_in
digits_from-decimal_in bound zero n tail h = absurd (ground arith)
digits_from-decimal_in bound (suc fuel) n tail h = elim (Bool-cases (ltb n 10)) [
  | inl one ↦ ground (arith, one, digits_from-digit bound 0 tail n one)
  | inr more ↦
      let rest =
        digits_from-decimal_in bound fuel (n / 10) (String.◌∷◌ (digit (n % 10)) tail)
          (ground (arith, more, h)) in
      let next = digits_from-digit bound (n / 10) tail (n % 10) (ground arith) in
      ground (arith, more, rest, next)
]

unsigned : (d : ℕ) → ltb d 10 ≡ true → eqb (code (digit d)) b'+' ≡ false
unsigned zero h = refl
unsigned (suc zero) h = refl
unsigned (suc (suc zero)) h = refl
unsigned (suc (suc (suc zero))) h = refl
unsigned (suc (suc (suc (suc zero)))) h = refl
unsigned (suc (suc (suc (suc (suc zero))))) h = refl
unsigned (suc (suc (suc (suc (suc (suc zero)))))) h = refl
unsigned (suc (suc (suc (suc (suc (suc (suc zero))))))) h = refl
unsigned (suc (suc (suc (suc (suc (suc (suc (suc zero)))))))) h = refl
unsigned (suc (suc (suc (suc (suc (suc (suc (suc (suc zero))))))))) h = refl
unsigned (suc (suc (suc (suc (suc (suc (suc (suc (suc (suc d)))))))))) h = absurd (ground arith)

parse_number-decimal_in :
    (bound fuel n : ℕ) (tail : String)
    → ltb n fuel ≡ true
    → parse_number bound (decimal_in fuel n tail) ≡ digits_from bound 0 (decimal_in fuel n tail)
unfolding decimal_in parse_number digits_of
parse_number-decimal_in bound zero n tail h = absurd (ground arith)
parse_number-decimal_in bound (suc fuel) n tail h = elim (Bool-cases (ltb n 10)) [
  | inl one ↦ ground (arith, one, unsigned n one)
  | inr more ↦
      let rest =
        parse_number-decimal_in bound fuel (n / 10) (String.◌∷◌ (digit (n % 10)) tail)
          (ground (arith, more, h)) in
      ground (arith, more, rest)
]

-- What is rendered is parsed again, up to the bound.
pub parse_number-decimal :
    (bound n : ℕ) → parse_number bound (decimal n) ≡ (if leb n bound then some n else none)
unfolding decimal digits_from
parse_number-decimal bound n =
    parse_number-decimal_in bound (suc n) n "" (ground arith)
    ∙ digits_from-decimal_in bound (suc n) n "" (ground arith)

pub decimal_injective : (n m : ℕ) → decimal n ≡ decimal m → n ≡ m
decimal_injective n m same = ground (
  arith,
  parse_number-decimal (n + m) n,
  parse_number-decimal (n + m) m,
  ap (parse_number (n + m)) same,
)
