-- ===== src/Relay/Recovery.antt =====
-- crates/sismatic-intent-relay/src/relay.rs: what a relay does, when it starts, with the writes that
-- an earlier process left in flight. What the device answers when it is asked for its state is an
-- argument, `none` where it does not answer; so is the clock, the time of its n-th reading. The
-- core's recording states and the wire's have the same names, and one type stands for both.
use sismatic.Common.{
  ℕ, suc, String, Bool, true, false, Option, none, some, List, [], ◌∷◌, if◌then◌else◌,
}
use sismatic.Api.{
  WriteRecord, Timestamp, RecordingState, stopped, started, state, Intent, start_recording,
  stop_recording, pause_recording, set_metadata, set_setting,
}
use sismatic.Store.Policy.{Outcome}
use sismatic.Outbox.State.{Outbox, Chrono}
use sismatic.Outbox.Queries.{in_flight_rows}
use sismatic.Outbox.Settle.{settle, observe}

abbrev pub is_recording : RecordingState → Bool
is_recording started = true
is_recording RecordingState.paused = true
is_recording _ = false

abbrev replayed : Outcome
replayed =
    Outcome.failed
      "left in flight by a previous process; replayed, because writing the same value twice is the same as writing it once"

abbrev silent : Outcome
silent = Outcome.failed "left in flight by a previous process and the device did not answer"

abbrev without_effect : Outcome
without_effect =
    Outcome.failed
      "left in flight by a previous process; the device state does not show the command took effect"

unfoldable pub stranded_outcome : Intent → Option RecordingState → Outcome
stranded_outcome (set_metadata _ _) _ = replayed
stranded_outcome (set_setting _ _) _ = replayed
stranded_outcome start_recording none = silent
stranded_outcome stop_recording none = silent
stranded_outcome pause_recording none = silent
stranded_outcome start_recording (some seen) =
    if is_recording seen then Outcome.succeeded (state seen) else without_effect
stranded_outcome stop_recording (some stopped) = Outcome.succeeded (state stopped)
stranded_outcome stop_recording (some _) = without_effect
stranded_outcome pause_recording (some RecordingState.paused) =
    Outcome.succeeded (state RecordingState.paused)
stranded_outcome pause_recording (some _) = without_effect

-- `observe_state`: the answer is folded into the desired recording state.
unfoldable pub observe_state : String → Option RecordingState → Outbox → Outbox
observe_state device none o = o
observe_state device (some seen) o = observe device seen o

unfoldable pub settle_stranded :
    Chrono → Option RecordingState → (ℕ → Timestamp) → ℕ → List WriteRecord → Outbox → Outbox
settle_stranded c seen clock n [] o = o
settle_stranded c seen clock n (r ∷ rest) o =
    settle_stranded c seen clock (suc n) rest
      (settle c r.id (stranded_outcome r.intent seen) (clock n) o).1

unfoldable pub recover : Chrono → String → Option RecordingState → (ℕ → Timestamp) → Outbox → Outbox
recover c device seen clock o = elim (in_flight_rows device o) [
  | [] ↦ o
  | r ∷ rest ↦ settle_stranded c seen clock 0 (r ∷ rest) (observe_state device seen o)
]
