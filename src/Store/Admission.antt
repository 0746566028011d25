-- ===== src/Store/Admission.antt =====
-- The admission table and its undoing.
use sismatic.Common.{◌≡◌, ◌⊎◌, arith}
use sismatic.Api.{DesiredRecordingState, idle, recording}
use sismatic.Store.Policy.{ok, Verb, start, stop, admit, rollback}

-- Undoing an admitted verb restores the state that it was admitted in, but for a start or a stop
-- that was admitted while paused: that leaves the device idle or recording, and not paused again.
pub rollback-admit :
    (p q : DesiredRecordingState) (v : Verb)
    → admit p v ≡ ok q
    → (rollback q v ≡ p)
      ⊎ ((p ≡ DesiredRecordingState.paused)
          × (((v ≡ start) × (rollback q v ≡ idle)) ⊎ ((v ≡ stop) × (rollback q v ≡ recording))))
unfolding admit rollback
rollback-admit idle q v h = ground arith
rollback-admit recording q v h = ground arith
rollback-admit DesiredRecordingState.paused q v h = ground arith
