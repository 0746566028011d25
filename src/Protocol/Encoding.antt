-- ===== src/Protocol/Encoding.antt =====
-- crates/sismatic-core/src/protocol/instructions/setting.rs: the values that a setting takes, and
-- how they are written on the wire.
use Prim.Native.Char.{Char, code}
use Prim.Native.String.{count}
use sismatic.Common.{
  ℕ, ◌≡◌, refl, String, Bool, false, not, ◌&&◌, ◌||◌, Option, none, some, [], ◌∷◌, ◌==◌, eqb, ltb,
  contains, Result, ok, err, ◌>>=◌, trim, to_ascii_lowercase, parse_number, find_char, is_control,
  strip_prefix, decimal, map_chars, if◌then◌else◌,
}

pub data Shape : Type 0 where
  flag port : Shape
  text token url : ℕ → Shape

pub data Form : Type 0 where
  prefixed : Form
  addressed : String → Form

pub data ValueError : Type 0 where
  not_a_flag not_a_port : String → ValueError
  too_long : ℕ → ℕ → ValueError
  illegal_character : Char → ValueError
  not_an_rtmp_url : String → ValueError

abbrev starts_with_slash : String → Bool
starts_with_slash String.[] = false
starts_with_slash (String.◌∷◌ c _) = eqb (code c) b'/'

-- The first of the two schemes that the value has, taken off.
abbrev after_scheme : String → Option String
unfolding strip_prefix
after_scheme lower = elim (strip_prefix "rtmp://" lower) [
  | some rest ↦ some rest
  | none ↦ strip_prefix "rtmps://" lower
]

unfoldable pub is_rtmp_url : String → Bool
unfolding strip_prefix to_ascii_lowercase
is_rtmp_url value = elim (after_scheme (to_ascii_lowercase value)) [
  | none ↦ false
  | some rest ↦ not (rest == "") && not (starts_with_slash rest)
]

unfoldable pub encode_flag : String → Result String ValueError
unfolding contains trim to_ascii_lowercase
encode_flag value =
    let word = to_ascii_lowercase (trim value) in
    if contains word ("1" ∷ "true" ∷ "on" ∷ "yes" ∷ [])
    then ok "1"
    else if contains word ("0" ∷ "false" ∷ "off" ∷ "no" ∷ [])
    then ok "0"
    else err (not_a_flag value)

unfoldable pub encode_port : String → Result String ValueError
unfolding parse_number trim decimal
encode_port value = elim (parse_number 65535 (trim value)) [
  | none ↦ err (not_a_port value)
  | some p ↦ if ltb 0 p then ok (decimal p) else err (not_a_port value)
]

unfoldable pub encode_text : ℕ → String → Result String ValueError
encode_text limit value =
    if ltb limit (count value) then err (too_long limit (count value)) else ok value

-- What would cut the frame anew.
abbrev pub delimits : ℕ → Bool
delimits c = eqb c b'*' || is_control c

unfoldable pub encode_token : ℕ → String → Result String ValueError
unfolding encode_text find_char
encode_token limit value = do
  written ← encode_text limit value
  elim (find_char delimits written) [ some c ↦ err (illegal_character c) | none ↦ ok written ]

unfoldable pub encode_url : ℕ → String → Result String ValueError
unfolding encode_token is_rtmp_url
encode_url limit value = do
  written ← encode_token limit value
  if written == "" || is_rtmp_url written then ok written else err (not_an_rtmp_url value)

unfoldable pub encode : Shape → String → Result String ValueError
unfolding encode_flag encode_port encode_text encode_token encode_url
encode Shape.flag value = encode_flag value
encode Shape.port value = encode_port value
encode (Shape.text limit) value = encode_text limit value
encode (Shape.token limit) value = encode_token limit value
encode (Shape.url limit) value = encode_url limit value

rtmps_passes : encode (Shape.url 127) "RTMPS://host/a" ≡ ok "RTMPS://host/a"
unfolding encode map_chars
rtmps_passes = refl

hostless_fails : encode (Shape.url 127) "rtmp:///a" ≡ err (not_an_rtmp_url "rtmp:///a")
unfolding encode map_chars
hostless_fails = refl
