-- ===== src/Store/Policy.antt =====
-- crates/sismatic-store/src/outbox.rs: the admission table, its undoing, reconciliation with what
-- a device reports, and the numbering of takes.
use sismatic.Common.{ℕ, ◌+◌, ◌%◌, ◌^◌, String, Bool, true, false, List, Option}
use sismatic.Api.{
  ReadValue, RecordingState, Barrier, Intent, start_recording, stop_recording, pause_recording,
  set_metadata, set_setting, DesiredRecordingState, idle, recording, Rejection, metadata_frozen,
  already_recording, already_paused, not_recording, WriteRecord, Timestamp, stopped, started,
  unknown,
}
pub use sismatic.Common.{Result, ok, err}

-- A duration counts nanoseconds.
pub record BarrierPolicy : Type 0 where
  pub timeout : ℕ
  pub on_timeout : Barrier

pub record Submission : Type 0 where
  pub ids : List String
  pub targets : List String
  pub group : Option String
  pub batch : Option String
  pub barrier : Option BarrierPolicy
  pub intent : Intent
  pub at : Timestamp
  pub idempotency_key : Option String

pub data SubmitError : Type 0 where
  rejected : String → Rejection → DesiredRecordingState → SubmitError
  malformed backend : String → SubmitError

pub data Outcome : Type 0 where
  succeeded : ReadValue → Outcome
  failed : String → Outcome

pub data Claim : Type 0 where
  one : WriteRecord → Claim
  batch : String → List WriteRecord → Claim

pub data Verb : Type 0 where
  start stop pause write_metadata write_setting : Verb

-- `u64` addition wraps.
unfoldable pub add64 : ℕ → ℕ → ℕ
add64 a b = (a + b) % 2 ^ 64

unfoldable pub reconcile : DesiredRecordingState → RecordingState → DesiredRecordingState
reconcile p unknown = p
reconcile p stopped = idle
reconcile p started = recording
reconcile p RecordingState.paused = DesiredRecordingState.paused

unfoldable pub verb_of : Intent → Verb
verb_of start_recording = start
verb_of stop_recording = stop
verb_of pause_recording = pause
verb_of (set_metadata _ _) = write_metadata
verb_of (set_setting _ _) = write_setting

unfoldable pub admit : DesiredRecordingState → Verb → Result DesiredRecordingState Rejection
admit idle start = ok recording
admit idle stop = err not_recording
admit idle pause = err not_recording
admit idle write_metadata = ok idle
admit idle write_setting = ok idle
admit recording start = err already_recording
admit recording stop = ok idle
admit recording pause = ok DesiredRecordingState.paused
admit recording write_metadata = err metadata_frozen
admit recording write_setting = ok recording
admit DesiredRecordingState.paused start = ok recording
admit DesiredRecordingState.paused stop = ok idle
admit DesiredRecordingState.paused pause = err already_paused
admit DesiredRecordingState.paused write_metadata = err metadata_frozen
admit DesiredRecordingState.paused write_setting = ok DesiredRecordingState.paused

unfoldable pub opens_recording : DesiredRecordingState → DesiredRecordingState → Bool
opens_recording idle recording = true
opens_recording _ _ = false

unfoldable pub rollback : DesiredRecordingState → Verb → DesiredRecordingState
rollback recording start = idle
rollback idle stop = recording
rollback DesiredRecordingState.paused pause = recording
rollback other _ = other

unfoldable pub epoch_of : DesiredRecordingState → DesiredRecordingState → ℕ → ℕ
epoch_of idle after epoch = add64 epoch 1
epoch_of _ after epoch = epoch
