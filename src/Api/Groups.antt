-- ===== src/Api/Groups.antt =====
-- crates/sismatic-api-types/src/group.rs and read.rs: what is answered of a group.
use sismatic.Common.{ℕ, String, Bool, Option, List}
use sismatic.Api.Write.{Timestamp, DesiredRecordingState}
use sismatic.Api.Reading.{Read, GroupExpectation}

pub data GroupSyncState : Type 0 where
  in_sync drifted unknown : GroupSyncState

pub record MemberState : Type 0 where
  pub device : String
  pub read : Option Read
  pub sync : GroupSyncState

pub record GroupFieldState : Type 0 where
  pub group : String
  pub field : String
  pub expected : Option GroupExpectation
  pub sync : GroupSyncState
  pub uniform : Bool
  pub members : List MemberState

pub record GroupFieldStateList : Type 0 where
  pub group : String
  pub sync : GroupSyncState
  pub desired_recording_state : Option DesiredRecordingState
  pub fields : List GroupFieldState

pub record MemberHistory : Type 0 where
  pub device : String
  pub reads : List Read

pub record GroupHistory : Type 0 where
  pub group : String
  pub field : String
  pub expected : Option GroupExpectation
  pub members : List MemberHistory

pub record MemberDesiredRecordingState : Type 0 where
  pub device : String
  pub desired_recording_state : DesiredRecordingState
  pub epoch : ℕ

pub record GroupDesiredRecordingState : Type 0 where
  pub group : String
  pub desired_recording_state : Option DesiredRecordingState
  pub members : List MemberDesiredRecordingState

pub record ReadQuery : Type 0 where
  pub field : Option String
  pub start : Option Timestamp
  pub end : Option Timestamp
  pub limit : Option ℕ
