-- ===== src/Protocol/Values.antt =====
-- crates/sismatic-core/src/protocol.rs: the values that replies are read as, and their passage to the
-- API's, crates/sismatic-sync/src/dto.rs. The recording states have the same names in both crates,
-- and one type stands for both.
use Prim.Native.String.{◌++◌ as ◌<>◌}
use sismatic.Common.{
  ◌≡◌, refl, ℕ, ◌/◌, ◌%◌, String, Bool, Option, none, some, List, map, decimal, eqb, ltb,
  if◌then◌else◌,
}
use sismatic.Api.{RecordingState, ReadValue}

-- Six bytes.
pub record MacAddr : Type 0 where
  pub b0 : ℕ
  pub b1 : ℕ
  pub b2 : ℕ
  pub b3 : ℕ
  pub b4 : ℕ
  pub b5 : ℕ

pub data Value : Type 0 where
  text version : String → Value
  port number : ℕ → Value
  flag : Bool → Value
  mac : MacAddr → Value
  ack : String → Value
  state : RecordingState → Value
  alarms : List (String × String) → Value

-- An upper-case hexadecimal digit.
hex_digit : ℕ → String
hex_digit n =
    if ltb n 10
    then decimal n
    else if eqb n 10
    then "A"
    else if eqb n 11
    then "B"
    else if eqb n 12
    then "C"
    else if eqb n 13
    then "D"
    else if eqb n 14
    then "E"
    else "F"

-- `{:02X}` of a byte.
unfoldable pub hex_byte : ℕ → String
unfolding hex_digit decimal
hex_byte b = hex_digit (b / 16) <> hex_digit (b % 16)

unfoldable pub mac_text : MacAddr → String
unfolding hex_byte
mac_text m =
    hex_byte m.b0
    <> "-"
    <> hex_byte m.b1
    <> "-"
    <> hex_byte m.b2
    <> "-"
    <> hex_byte m.b3
    <> "-"
    <> hex_byte m.b4
    <> "-"
    <> hex_byte m.b5

unfoldable pub as_state : Value → Option RecordingState
as_state (Value.state s) = some s
as_state _ = none

unfoldable pub to_dto : Value → ReadValue
unfolding mac_text
to_dto (Value.text s) = ReadValue.text s
to_dto (Value.version s) = ReadValue.version s
to_dto (Value.port p) = ReadValue.port p
to_dto (Value.number n) = ReadValue.number n
to_dto (Value.flag b) = ReadValue.flag b
to_dto (Value.mac m) = ReadValue.mac (mac_text m)
to_dto (Value.ack s) = ReadValue.ack s
to_dto (Value.state s) = ReadValue.state s
to_dto (Value.alarms found) = ReadValue.alarms (map (λ a. record { name = a.0; level = a.1 }) found)

mac_text_of_a_unit :
    mac_text (record { b0 = 0; b1 = 5; b2 = 166; b3 = 27; b4 = 44; b5 = 61 }) ≡ "00-05-A6-1B-2C-3D"
unfolding mac_text
mac_text_of_a_unit = refl
