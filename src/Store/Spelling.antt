-- ===== src/Store/Spelling.antt =====
-- The spellings of crates/sismatic-store/src/group.rs and those of
-- crates/sismatic-core/src/protocol/instructions/setting.rs are the same.
use sismatic.Common.{
  ℕ, String, ◌≡◌, refl, sym, ap, ◌∙◌, Bool, true, false, ◌<◌, none, some, [], ◌∷◌, ◌==◌, eqb, ltb,
  contains, trim, parse_number, to_ascii_lowercase, decimal, Result, ok, err, decimal_injective,
  eq_iff, eq_refl, arith, inl, inr, Option-cases, Bool-cases, if◌then◌else◌,
}
use sismatic.Api.{text, port, flag, same_value}
use sismatic.Protocol.Encoding.{Shape, ValueError, encode, encode_flag, encode_port}
use sismatic.Store.Expectation.{satisfies, matches_text, flag_of, is_flag, is_number}

abbrev pub digit_of : Bool → String
digit_of b = if b then "1" else "0"

-- What was written is this text.
abbrev pub is_written : Result String ValueError → String → Bool
is_written (ok written) t = written == t
is_written (err _) t = false

flags_agree :
    (on off b : Bool) (e : ValueError)
    → is_flag (if on then some true else if off then some false else none) b
      ≡ is_written (if on then ok "1" else if off then ok "0" else err e) (digit_of b)
flags_agree true off true e = refl
flags_agree true off false e = refl
flags_agree false true true e = refl
flags_agree false true false e = refl
flags_agree false false b e = refl

flag_lem :
    (value : String) (b : Bool)
    → is_flag (flag_of (trim value)) b ≡ is_written (encode Shape.flag value) (digit_of b)
unfolding encode encode_flag flag_of
flag_lem value b =
    flags_agree (contains (to_ascii_lowercase (trim value)) ("1" ∷ "true" ∷ "on" ∷ "yes" ∷ []))
      (contains (to_ascii_lowercase (trim value)) ("0" ∷ "false" ∷ "off" ∷ "no" ∷ [])) b
      (ValueError.not_a_flag value)

observed_flag :
    (value : String) (b : Bool) → satisfies (text value) (flag b) ≡ is_flag (flag_of (trim value)) b
unfolding satisfies same_value matches_text
observed_flag value b = refl

observed_port :
    (value : String) (p : ℕ)
    → satisfies (text value) (port p) ≡ is_number (parse_number 65535 (trim value)) p
unfolding satisfies same_value matches_text
observed_port value p = refl

same_decimal : (q p : ℕ) → (decimal q == decimal p) ≡ eqb q p
same_decimal q p = elim (Bool-cases (eqb q p)) [
  | inl same ↦
      let e : q ≡ p = ground (arith, same) in
      ap (λ n. decimal q == decimal n) (sym e) ∙ eq_refl (decimal q) ∙ sym same
  | inr other ↦ elim (Bool-cases (decimal q == decimal p)) [
    | inr differ ↦ differ ∙ sym other
    | inl written ↦
        absurd (
          ground (arith, other, decimal_injective q p ((eq_iff (decimal q) (decimal p)).0 written)))
  ]
]

port_lem :
    (value : String) (p : ℕ)
    → 0 < p
    → is_number (parse_number 65535 (trim value)) p
      ≡ is_written (encode Shape.port value) (decimal p)
unfolding encode encode_port
port_lem value p positive = elim (Option-cases (parse_number 65535 (trim value))) [
  | inl e ↦ ground (arith, e)
  | inr (q, e) ↦ elim (Bool-cases (ltb 0 q)) [
    | inl some_port ↦ ground (arith, e, some_port, same_decimal q p)
    | inr nought ↦ ground (arith, e, nought)
  ]
]

-- What the store takes a text for is what the protocol writes for it: a flag that is observed
-- satisfies a text just where the text is encoded as that flag's digit, and a port, which is not zero,
-- just where the text is encoded as that port's decimal.
pub satisfies-encode :
    (value : String) (b : Bool) (p : ℕ)
    → 0 < p
    → (satisfies (text value) (flag b) ≡ is_written (encode Shape.flag value) (digit_of b))
      × (satisfies (text value) (port p) ≡ is_written (encode Shape.port value) (decimal p))
satisfies-encode value b p positive =
    (observed_flag value b ∙ flag_lem value b, observed_port value p ∙ port_lem value p positive)
