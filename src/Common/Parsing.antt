-- ===== src/Common/Parsing.antt =====
-- `str::trim`, and `str::parse` of an unsigned integer.
use Prim.Native.Nat.{ℕ, ◌+◌, ◌-◌, ◌*◌}
use Prim.Native.Char.{Char, code}
use Prim.Native.String.{String}
use mathlib.Core.Path.{◌≡◌, refl}
use mathlib.Core.Bool.{Bool, true, false, ◌&&◌, ◌||◌}
use mathlib.Core.Option.{Option, none, some}
use sismatic.Common.Tests.{eqb, ltb, leb, if◌then◌else◌}

-- `char::is_whitespace`: the White_Space property.
abbrev is_whitespace : ℕ → Bool
is_whitespace c =
    (leb 9 c && leb c 13)
    || eqb c 32
    || eqb c 133
    || eqb c 160
    || eqb c 5760
    || (leb 8192 c && leb c 8202)
    || eqb c 8232
    || eqb c 8233
    || eqb c 8239
    || eqb c 8287
    || eqb c 12288

trim_start : String → String
trim_start String.[] = String.[]
trim_start (String.◌∷◌ c s) =
    let rest = trim_start s in if is_whitespace (code c) then rest else String.◌∷◌ c s

abbrev is_blank : String → Bool
is_blank String.[] = true
is_blank (String.◌∷◌ _ _) = false

trim_end : String → String
trim_end String.[] = String.[]
trim_end (String.◌∷◌ c s) =
    let rest = trim_end s in
    if is_blank rest && is_whitespace (code c) then String.[] else String.◌∷◌ c rest

unfoldable pub trim : String → String
unfolding trim_start trim_end
trim s = trim_start (trim_end s)

-- The digits of a number no larger than the bound, after the ones read so far.
unfoldable pub digits_from : ℕ → ℕ → String → Option ℕ
digits_from bound n String.[] = some n
digits_from bound n (String.◌∷◌ c s) =
    let d = code c - b'0' in
    let more = digits_from bound (n * 10 + d) s in
    if leb b'0' (code c) && leb (code c) b'9' && leb (n * 10 + d) bound then more else none

unfoldable pub digits_of : ℕ → String → Option ℕ
digits_of bound String.[] = none
digits_of bound (String.◌∷◌ c s) = digits_from bound 0 (String.◌∷◌ c s)

-- An optional plus sign, and digits.
unfoldable pub parse_number : ℕ → String → Option ℕ
unfolding digits_of digits_from
parse_number bound String.[] = none
parse_number bound (String.◌∷◌ c s) =
    if eqb (code c) b'+' then digits_of bound s else digits_of bound (String.◌∷◌ c s)

-- The first character that passes a test.
unfoldable pub find_char : (ℕ → Bool) → String → Option Char
find_char p String.[] = none
find_char p (String.◌∷◌ c s) = let rest = find_char p s in if p (code c) then some c else rest

-- `char::is_control`: the category Cc.
abbrev pub is_control : ℕ → Bool
is_control c = ltb c 32 || (leb 127 c && leb c 159)

-- The text after a prefix.
unfoldable pub strip_prefix : String → String → Option String
strip_prefix String.[] s = some s
strip_prefix (String.◌∷◌ c p) String.[] = none
strip_prefix (String.◌∷◌ c p) (String.◌∷◌ d s) =
    let rest = strip_prefix p s in if eqb (code c) (code d) then rest else none

trimmed_port : parse_number 65535 (trim " +022 ") ≡ some 22
unfolding parse_number trim
trimmed_port = refl

too_large : parse_number 65535 "65536" ≡ none
unfolding parse_number
too_large = refl
