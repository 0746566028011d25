-- ===== src/Protocol/Framing.antt =====
-- A value that stands in an addressed frame does not cut it.
use sismatic.Common.{
  ℕ, String, ◌≡◌, refl, ◌∙◌, sym, ap, Bool, true, false, ◌||◌, ◌==◌, none, ok, err, ok_injective,
  Result-cases, Option-cases, Bool-cases, inl, inr, arith, find_char, if◌then◌else◌,
}
use sismatic.Protocol.Settings.{Setting, setting_name}
use sismatic.Protocol.Replies.{Instruction}
use sismatic.Protocol.Encoding.{
  Shape, Form, ValueError, encode, encode_flag, encode_text, encode_token, encode_url, delimits,
  is_rtmp_url,
}
use sismatic.Protocol.Payloads.{Parsers, shape, form, verb, esc_cr}
use sismatic.Protocol.Instructions.{setting_instruction}
use Prim.Native.String.{◌++◌ as ◌<>◌}

abbrev is_addressed : Form → Bool
is_addressed Form.prefixed = false
is_addressed (Form.addressed _) = true

-- The shapes that let no delimiter through.
abbrev is_framed : Shape → Bool
is_framed Shape.flag = true
is_framed Shape.port = false
is_framed (Shape.text _) = false
is_framed (Shape.token _) = true
is_framed (Shape.url _) = true

addressed-is_framed : (s : Setting) → is_addressed (form s) ≡ true → is_framed (shape s) ≡ true
unfolding form shape
addressed-is_framed Setting.unit_name h = absurd (ground arith)
addressed-is_framed Setting.timezone h = absurd (ground arith)
addressed-is_framed Setting.dhcp_mode h = absurd (ground arith)
addressed-is_framed Setting.snmp_state h = absurd (ground arith)
addressed-is_framed Setting.snmp_unit_location h = absurd (ground arith)
addressed-is_framed Setting.snmp_unit_contact h = absurd (ground arith)
addressed-is_framed Setting.telnet_port h = absurd (ground arith)
addressed-is_framed Setting.http_port h = absurd (ground arith)
addressed-is_framed Setting.stream1_name h = refl
addressed-is_framed Setting.stream2_name h = refl
addressed-is_framed Setting.stream3_name h = refl
addressed-is_framed Setting.stream1_state h = refl
addressed-is_framed Setting.stream2_state h = refl
addressed-is_framed Setting.stream3_state h = refl
addressed-is_framed Setting.rtmp_stream1_publish_url h = refl
addressed-is_framed Setting.rtmp_stream1_backup_publish_url h = refl
addressed-is_framed Setting.rtmp_stream2_publish_url h = refl
addressed-is_framed Setting.rtmp_stream2_backup_publish_url h = refl
addressed-is_framed Setting.rtmp_stream3_publish_url h = refl
addressed-is_framed Setting.rtmp_stream3_backup_publish_url h = refl
addressed-is_framed Setting.rtmp_stream1_state h = refl
addressed-is_framed Setting.rtmp_stream2_state h = refl
addressed-is_framed Setting.rtmp_stream3_state h = refl

-- No character of the text delimits.
abbrev pub IsWhole : String → Type 0
IsWhole text = find_char delimits text ≡ none

encode_token-IsWhole :
    (limit : ℕ) (value written : String) → encode_token limit value ≡ ok written → IsWhole written
unfolding encode_token
encode_token-IsWhole limit value written h = elim (Result-cases (encode_text limit value)) [
  | inr (e, f) ↦ absurd (ground (arith, f))
  | inl (same, f) ↦ elim (Option-cases (find_char delimits same)) [
    | inr (c, g) ↦ absurd (ground (arith, f, g))
    | inl g ↦
        let whole : encode_token limit value ≡ ok same = ground (arith, f, g) in
        ap (find_char delimits) (sym (ok_injective (sym whole ∙ h))) ∙ g
  ]
]

encode_url-IsWhole :
    (limit : ℕ) (value written : String) → encode_url limit value ≡ ok written → IsWhole written
unfolding encode_url
encode_url-IsWhole limit value written h = elim (Result-cases (encode_token limit value)) [
  | inr (e, f) ↦ absurd (ground (arith, f))
  | inl (same, f) ↦ elim (Bool-cases (same == "" || is_rtmp_url same)) [
    | inr refused ↦ absurd (ground (arith, f, refused))
    | inl passes ↦
        let whole : encode_url limit value ≡ ok same = ground (arith, f, passes) in
        ap (find_char delimits) (sym (ok_injective (sym whole ∙ h)))
        ∙ encode_token-IsWhole limit value same f
  ]
]

one-IsWhole : IsWhole "1"
unfolding find_char
one-IsWhole = refl

zero-IsWhole : IsWhole "0"
unfolding find_char
zero-IsWhole = refl

encode_flag-IsWhole : (value written : String) → encode_flag value ≡ ok written → IsWhole written
unfolding encode_flag
encode_flag-IsWhole value written h = by_tests _ _ h
  where
    by_tests :
        (on off : Bool)
        → (if on then ok "1" else if off then ok "0" else err (ValueError.not_a_flag value))
          ≡ ok written
        → IsWhole written
    by_tests true off h = ap (find_char delimits) (sym (ok_injective h)) ∙ one-IsWhole
    by_tests false true h = ap (find_char delimits) (sym (ok_injective h)) ∙ zero-IsWhole
    by_tests false false h = absurd (cc)

encode-IsWhole :
    (sh : Shape) (value written : String)
    → is_framed sh ≡ true
    → encode sh value ≡ ok written
    → IsWhole written
unfolding encode
encode-IsWhole Shape.flag value written framed h = encode_flag-IsWhole value written h
encode-IsWhole Shape.port value written framed h = absurd (ground arith)
encode-IsWhole (Shape.text limit) value written framed h = absurd (ground arith)
encode-IsWhole (Shape.token limit) value written framed h =
    encode_token-IsWhole limit value written h
encode-IsWhole (Shape.url limit) value written framed h = encode_url-IsWhole limit value written h

-- The instruction of a setting with an address has the payload of the frame, the address, an
-- asterisk, the written value and the verb; and the written value has in it no asterisk and no
-- control character, which would cut the frame elsewhere. Every other value is refused.
pub setting_instruction-IsWhole :
    (p : Parsers) (s : Setting) (value addr : String) (i : Instruction)
    → form s ≡ Form.addressed addr
    → setting_instruction p s value ≡ ok i
    → (written : String) × IsWhole written
      × (encode (shape s) value ≡ ok written)
      × (i.payload ≡ esc_cr (addr <> "*" <> written <> verb s))
unfolding setting_instruction
setting_instruction-IsWhole p s value addr i framed h =
    elim (Result-cases (encode (shape s) value)) [
      | inr (e, f) ↦ absurd (ground (arith, f))
      | inl (written, f) ↦
          let sent : Instruction = record {
            name = setting_name s;
            payload = esc_cr (addr <> "*" <> written <> verb s);
            parse_step = p.addressed_echo (verb s) addr;
          } in
          let whole : setting_instruction p s value ≡ ok sent = rw (f, framed) refl in
          (
            written,
            encode-IsWhole (shape s) value written (addressed-is_framed s (ap is_addressed framed))
                f,
            f,
            sym (ap (λ x. x.payload) (ok_injective (sym whole ∙ h))),
          )
    ]
