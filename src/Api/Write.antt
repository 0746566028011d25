-- ===== src/Api/Write.antt =====
-- crates/sismatic-api-types/src/write.rs: intents, their admission and their records.
use sismatic.Common.{ℕ, String, Bool, true, false, Option, List}
use sismatic.Api.Value.{ReadValue}

-- RFC 3339 text; the program compares instants as text.
abbrev pub Timestamp : Type 0
Timestamp = String

pub data Barrier : Type 0 where
  dispatch_ready fail_batch : Barrier

pub data Intent : Type 0 where
  start_recording stop_recording pause_recording : Intent
  set_metadata set_setting : String → String → Intent

pub data DesiredRecordingState : Type 0 where
  idle recording paused : DesiredRecordingState

pub data Rejection : Type 0 where
  metadata_frozen already_recording already_paused not_recording field_disabled : Rejection

pub data WriteStatus : Type 0 where
  pending in_flight : WriteStatus
  succeeded : ReadValue → WriteStatus
  failed canceled : String → WriteStatus

abbrev pub is_pending : WriteStatus → Bool
is_pending pending = true
is_pending _ = false

abbrev pub is_in_flight : WriteStatus → Bool
is_in_flight in_flight = true
is_in_flight _ = false

pub record DeviceDesiredRecordingState : Type 0 where
  pub desired_recording_state : DesiredRecordingState
  pub epoch : ℕ

pub record WriteRecord : Type 0 where
  pub id : String
  pub device : String
  pub intent : Intent
  pub batch : Option String
  pub epoch : ℕ  -- u64
  pub status : WriteStatus
  pub attempts : ℕ  -- u32
  pub enqueued_at : Timestamp
  pub updated_at : Timestamp
  pub not_before : Timestamp

pub record Accepted : Type 0 where
  pub id : String
  pub device : String
  pub epoch : ℕ

pub record Acceptance : Type 0 where
  pub batch : Option String
  pub writes : List Accepted
