-- ===== src/Common/Order.antt =====
-- The order of texts is a strict total order.
use Prim.Native.String.{String}
use Prim.Native.String.compare
use mathlib.Core.Path.{◌≡◌}
use mathlib.Core.Bool.{true, false}
use native.Mathlib.Omega.{arith}
use text.Mathlib.Text.{◌==◌}
use text.Mathlib.TextPositions.{eq_refl}
use sismatic.Common.Tests.{str_lt}

pub str_lt_trans : (s t u : String) → str_lt s t ≡ true → str_lt t u ≡ true → str_lt s u ≡ true
str_lt_trans String.[] String.[] u h k = ground (arith, compare.nil-nil)
str_lt_trans String.[] (String.◌∷◌ d t) String.[] h k = ground (arith, compare.cons-nil d t)
str_lt_trans String.[] (String.◌∷◌ d t) (String.◌∷◌ e u) h k = ground (arith, compare.nil-cons e u)
str_lt_trans (String.◌∷◌ c s) String.[] u h k = ground (arith, compare.cons-nil c s)
str_lt_trans (String.◌∷◌ c s) (String.◌∷◌ d t) String.[] h k = ground (arith, compare.cons-nil d t)
str_lt_trans (String.◌∷◌ c s) (String.◌∷◌ d t) (String.◌∷◌ e u) h k = ground (
  arith,
  compare.cons-cons c d s t,
  compare.cons-cons d e t u,
  compare.cons-cons c e s u,
  str_lt_trans s t u,
)

pub str_lt_asym : (s t : String) → str_lt s t ≡ true → str_lt t s ≡ false
str_lt_asym String.[] String.[] h = ground (arith, compare.nil-nil)
str_lt_asym String.[] (String.◌∷◌ d t) h = ground (arith, compare.cons-nil d t)
str_lt_asym (String.◌∷◌ c s) String.[] h = ground (arith, compare.cons-nil c s)
str_lt_asym (String.◌∷◌ c s) (String.◌∷◌ d t) h =
    ground (arith, compare.cons-cons c d s t, compare.cons-cons d c t s, str_lt_asym s t)

pub str_lt_total : (s t : String) → str_lt s t ≡ false → (s == t) ≡ false → str_lt t s ≡ true
str_lt_total String.[] String.[] h k = ground (arith, eq_refl "")
str_lt_total String.[] (String.◌∷◌ d t) h k = ground (arith, compare.nil-cons d t)
str_lt_total (String.◌∷◌ c s) String.[] h k = ground (arith, compare.nil-cons c s)
str_lt_total (String.◌∷◌ c s) (String.◌∷◌ d t) h k =
    ground (arith, compare.cons-cons c d s t, compare.cons-cons d c t s, str_lt_total s t)
