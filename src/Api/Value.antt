-- ===== src/Api/Value.antt =====
-- crates/sismatic-api-types/src/value.rs: what a device reported.
use sismatic.Common.{
  ℕ, String, Bool, true, false, not, ◌&&◌, List, [], ◌∷◌, ◌==◌, eqb, if◌then◌else◌,
}

pub data RecordingState : Type 0 where
  stopped started paused unknown : RecordingState

pub record Alarm : Type 0 where
  pub name : String
  pub level : String

pub data ReadValue : Type 0 where
  text version : String → ReadValue
  port number : ℕ → ReadValue
  flag : Bool → ReadValue
  mac ack : String → ReadValue
  state : RecordingState → ReadValue
  alarms : List Alarm → ReadValue

abbrev pub same_state : RecordingState → RecordingState → Bool
same_state RecordingState.stopped RecordingState.stopped = true
same_state RecordingState.started RecordingState.started = true
same_state RecordingState.paused RecordingState.paused = true
same_state RecordingState.unknown RecordingState.unknown = true
same_state _ _ = false

abbrev pub same_alarms : List Alarm → List Alarm → Bool
same_alarms [] [] = true
same_alarms (a ∷ rest) (b ∷ others) =
    (a.name == b.name) && (a.level == b.level) && same_alarms rest others
same_alarms _ _ = false

-- The derived `==`.
unfoldable pub same_value : ReadValue → ReadValue → Bool
same_value (text a) (text b) = a == b
same_value (version a) (version b) = a == b
same_value (port a) (port b) = eqb a b
same_value (number a) (number b) = eqb a b
same_value (flag a) (flag b) = if a then b else not b
same_value (mac a) (mac b) = a == b
same_value (ack a) (ack b) = a == b
same_value (state a) (state b) = same_state a b
same_value (alarms a) (alarms b) = same_alarms a b
same_value _ _ = false
