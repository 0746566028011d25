-- ===== src/Protocol/Replies.antt =====
-- crates/sismatic-core/src/protocol: an instruction, the text that a reply's bytes make so far
-- (`valid_prefix` of crates/sismatic-core/src/devices/controller.rs), and the error lines of a reply
-- (sis_error.rs). A text from the wire is the list of its bytes.
use sismatic.Common.{
  ℕ, zero, suc, ◌+◌, ◌-◌, ◌*◌, String, Bool, true, false, ◌&&◌, Option, none, some, List, [], ◌∷◌,
  ◌++◌, ◌≡◌, refl, leb, ltb, eqb, as_bytes, if◌then◌else◌,
}
use sismatic.Protocol.Values.{Value}

pub data Step : Type 0 where
  need_more : Step
  done : Value → Step

-- The parser, a closure over combinators of the winnow crate, is a function on the text so far.
pub record Instruction : Type 0 where
  pub name : String
  pub payload : String
  pub parse_step : List ℕ → Step

pub record SisError : Type 0 where
  pub code : ℕ  -- u8

abbrev pub is_digit : ℕ → Bool
is_digit b = leb b'0' b && leb b b'9'

-- `E` and two digits, and nothing else.
unfoldable pub of_line : List ℕ → Option SisError
of_line (e ∷ a ∷ b ∷ []) =
    if eqb e b'E' && (is_digit a && is_digit b)
    then some (record { code = (a - b'0') * 10 + (b - b'0') })
    else none
of_line _ = none

-- The lines that a carriage return and a line feed end: what `split_terminator` makes of the text up
-- to the last of these pairs. The first argument is the line so far.
unfoldable pub complete_lines : List ℕ → List ℕ → List (List ℕ)
complete_lines line [] = []
complete_lines line (a ∷ []) = []
complete_lines line (a ∷ b ∷ rest) = elim (eqb a b'\r' && eqb b b'\n') [
  | true ↦ line ∷ complete_lines [] rest
  | false ↦ complete_lines (line ++ a ∷ []) (b ∷ rest)
]

-- `find_map(Self::of_line)`.
unfoldable pub first_error : List (List ℕ) → Option SisError
unfolding of_line
first_error [] = none
first_error (line ∷ lines) = elim (of_line line) [ some e ↦ some e | none ↦ first_error lines ]

unfoldable pub in_reply : List ℕ → Option SisError
unfolding complete_lines first_error
in_reply reply = first_error (complete_lines [] reply)

-- What may follow the first byte of a character of UTF-8: how many bytes, and the range of the next.
abbrev follows : ℕ → Option (ℕ × ℕ × ℕ)
follows b =
    if ltb b 194
    then none
    else if leb b 223
    then some (1, 128, 191)
    else if eqb b 224
    then some (2, 160, 191)
    else if eqb b 237
    then some (2, 128, 159)
    else if leb b 239
    then some (2, 128, 191)
    else if eqb b 240
    then some (3, 144, 191)
    else if leb b 243
    then some (3, 128, 191)
    else if eqb b 244
    then some (3, 128, 143)
    else none

-- The bytes of the character that has begun, how many more it takes, and the range of the next.
unfoldable pub valid_from : List ℕ → ℕ → ℕ → ℕ → List ℕ → List ℕ
valid_from begun left low high [] = []
valid_from begun zero low high (b ∷ rest) = elim (ltb b 128) [
  | true ↦ b ∷ valid_from [] 0 0 0 rest
  | false ↦ elim (follows b) [
    | none ↦ []
    | some (left, low', high') ↦ valid_from (b ∷ []) left low' high' rest
  ]
]
valid_from begun (suc left) low high (b ∷ rest) = elim (leb low b && leb b high) [
  | false ↦ []
  | true ↦ elim left [
    | zero ↦ (begun ++ b ∷ []) ++ valid_from [] 0 0 0 rest
    | suc n ↦ valid_from (begun ++ b ∷ []) (suc n) 128 191 rest
  ]
]

-- The bytes up to `valid_up_to`, which are the text.
unfoldable pub valid_prefix : List ℕ → List ℕ
unfolding valid_from
valid_prefix bytes = valid_from [] 0 0 0 bytes

cut_in_a_character : valid_prefix (as_bytes "né" ++ 226 ∷ 130 ∷ []) ≡ as_bytes "né"
unfolding valid_prefix as_bytes
cut_in_a_character = refl

refused_with_13 : in_reply (as_bytes "Rcdr\r\nE13\r\n") ≡ some (record { code = 13 })
unfolding in_reply as_bytes
refused_with_13 = refl

not_yet_complete : in_reply (as_bytes "E13\r") ≡ none
unfolding in_reply as_bytes
not_yet_complete = refl
