-- ===== src/Store/Expectation.antt =====
-- crates/sismatic-store/src/group.rs: what a group was told to hold, field by field.
use sismatic.Common.{
  ℕ, String, ◌≡◌, refl, Bool, true, false, not, ◌||◌, Option, none, some, [], ◌∷◌, ◌==◌, eqb,
  contains, trim, parse_number, to_ascii_lowercase, map_chars, if◌then◌else◌,
}
use sismatic.Api.{
  RecordingState, stopped, started, ReadValue, text, version, port, number, flag, mac, ack, state,
  alarms, same_value, Intent, start_recording, stop_recording, pause_recording, set_metadata,
  set_setting,
}

abbrev pub recording_state_field : String
recording_state_field = "RUNNING_STATE"

-- The field and the value that an intent asks a device to end up holding.
unfoldable pub expects : Intent → String × ReadValue
expects start_recording = (recording_state_field, state started)
expects stop_recording = (recording_state_field, state stopped)
expects pause_recording = (recording_state_field, state RecordingState.paused)
expects (set_metadata field value) = (field, text value)
expects (set_setting field value) = (field, text value)

-- The spellings of a flag.
unfoldable pub flag_of : String → Option Bool
unfolding contains to_ascii_lowercase
flag_of want =
    let word = to_ascii_lowercase want in
    if contains word ("1" ∷ "true" ∷ "on" ∷ "yes" ∷ [])
    then some true
    else if contains word ("0" ∷ "false" ∷ "off" ∷ "no" ∷ [])
    then some false
    else none

abbrev pub state_name : RecordingState → String
state_name stopped = "stopped"
state_name started = "started"
state_name RecordingState.paused = "paused"
state_name RecordingState.unknown = "unknown"

eq_ignore_ascii_case : String → String → Bool
unfolding to_ascii_lowercase
eq_ignore_ascii_case a b = to_ascii_lowercase a == to_ascii_lowercase b

-- A number that is parsed, and the one that was read.
abbrev pub is_number : Option ℕ → ℕ → Bool
is_number none got = false
is_number (some n) got = eqb n got

abbrev pub is_flag : Option Bool → Bool → Bool
is_flag none got = false
is_flag (some b) got = if b then got else not got

-- The text, read as a value of the shape that was observed.
unfoldable pub matches_text : String → ReadValue → Bool
unfolding parse_number flag_of eq_ignore_ascii_case
matches_text want (text got) = want == got
matches_text want (version got) = want == got
matches_text want (ack got) = want == got
matches_text want (port got) = is_number (parse_number 65535 want) got
matches_text want (number got) = is_number (parse_number 4294967295 want) got
matches_text want (flag got) = is_flag (flag_of want) got
matches_text want (mac got) = eq_ignore_ascii_case want got
matches_text want (state got) = eq_ignore_ascii_case want (state_name got)
matches_text want (alarms _) = false

-- Whether what a device reported is what it was told to hold.
unfoldable pub satisfies : ReadValue → ReadValue → Bool
unfolding same_value trim matches_text
satisfies (text want) observed =
    same_value (text want) observed || matches_text (trim want) observed
satisfies expected observed = same_value expected observed

written_as_read : satisfies (text " On") (flag true) ≡ true
unfolding satisfies map_chars
written_as_read = refl
