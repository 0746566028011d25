-- ===== src/Tests/Policy.antt =====
-- The admission table's theorems at work.
use sismatic.Common.{◌≡◌, refl, ◌⊎◌}
use sismatic.Api.{DesiredRecordingState, idle, recording}
use sismatic.Store.Policy.{ok, start, stop, admit, rollback}
use sismatic.Store.Admission.{rollback-admit}

stop_admitted : admit DesiredRecordingState.paused stop ≡ ok idle
unfolding admit
stop_admitted = refl

rollback-admit_example :
    (rollback idle stop ≡ DesiredRecordingState.paused)
    ⊎ ((DesiredRecordingState.paused ≡ DesiredRecordingState.paused)
        × (((stop ≡ start) × (rollback idle stop ≡ idle))
            ⊎ ((stop ≡ stop) × (rollback idle stop ≡ recording))))
rollback-admit_example = rollback-admit DesiredRecordingState.paused idle stop stop_admitted
