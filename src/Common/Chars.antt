-- ===== src/Common/Chars.antt =====
-- The characters of a text: ASCII case, trimming, and the bytes of UTF-8.
use Prim.Native.Nat.{ℕ, zero, suc, ◌+◌, ◌-◌, ◌/◌, ◌%◌}
use Prim.Native.Char.{Char, code}
use Prim.Native.String.{String, char_at}
use mathlib.Core.Path.{◌≡◌, refl}
use mathlib.Core.Bool.{◌&&◌}
use mathlib.Core.List.{List, [], ◌∷◌, ◌++◌}
use sismatic.Common.Tests.{eqb, ltb, leb, if◌then◌else◌}

-- A character to a character, all along the text.
unfoldable pub map_chars : (Char → Char) → String → String
map_chars f String.[] = String.[]
map_chars f (String.◌∷◌ c s) = String.◌∷◌ (f c) (map_chars f s)

upper_char : Char → Char
upper_char c =
    if leb b'a' (code c) && leb (code c) b'z'
    then char_at "ABCDEFGHIJKLMNOPQRSTUVWXYZ" (code c - b'a')
    else c

lower_char : Char → Char
lower_char c =
    if leb b'A' (code c) && leb (code c) b'Z'
    then char_at "abcdefghijklmnopqrstuvwxyz" (code c - b'A')
    else c

-- `str::to_ascii_uppercase`.
unfoldable pub to_ascii_uppercase : String → String
unfolding upper_char
to_ascii_uppercase s = map_chars upper_char s

-- `str::to_ascii_lowercase`.
unfoldable pub to_ascii_lowercase : String → String
unfolding lower_char
to_ascii_lowercase s = map_chars lower_char s

-- `str.replace(from, to)` of one character by another.
unfoldable pub replace_char : Char → Char → String → String
replace_char old new s = map_chars (λ c. if eqb (code c) (code old) then new else c) s

-- The UTF-8 bytes of a code point.
utf8 : ℕ → List ℕ
utf8 n =
    if ltb n 128
    then n ∷ []
    else if ltb n 2048
    then (192 + n / 64) ∷ (128 + n % 64) ∷ []
    else if ltb n 65536
    then (224 + n / 4096) ∷ (128 + n / 64 % 64) ∷ (128 + n % 64) ∷ []
    else (240 + n / 262144) ∷ (128 + n / 4096 % 64) ∷ (128 + n / 64 % 64) ∷ (128 + n % 64) ∷ []

-- `str::as_bytes`.
unfoldable pub as_bytes : String → List ℕ
unfolding utf8
as_bytes String.[] = []
as_bytes (String.◌∷◌ c s) = utf8 (code c) ++ as_bytes s

-- `to_le_bytes` of an integer of so many bytes.
unfoldable pub to_le_bytes : ℕ → ℕ → List ℕ
to_le_bytes zero n = []
to_le_bytes (suc width) n = n % 256 ∷ to_le_bytes width (n / 256)

uppercase_of_a_name : to_ascii_uppercase "http-Port 1" ≡ "HTTP-PORT 1"
unfolding to_ascii_uppercase map_chars
uppercase_of_a_name = refl

bytes_of_a_text : as_bytes "aé€" ≡ 97 ∷ 195 ∷ 169 ∷ 226 ∷ 130 ∷ 172 ∷ []
unfolding as_bytes
bytes_of_a_text = refl

bytes_of_a_number : to_le_bytes 4 1027 ≡ 3 ∷ 4 ∷ 0 ∷ 0 ∷ []
unfolding to_le_bytes
bytes_of_a_number = refl
