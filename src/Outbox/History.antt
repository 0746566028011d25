-- ===== src/Outbox/History.antt =====
-- Histories of the outbox: every operation that takes the lock is one step, and any task may take
-- the next one.
use sismatic.Common.{ℕ, String, ◌≡◌, true, distinct, arith}
use sismatic.Common.Dict.{get-empty}
use sismatic.Api.{Timestamp, RecordingState}
use sismatic.Store.Policy.{Submission, Outcome}
use sismatic.Outbox.State.{DeviceLog, Outbox, Chrono, with_max_attempts, set_max_attempts}
use sismatic.Outbox.Submit.{submit}
use sismatic.Outbox.Cancel.{cancel_queued, forget_group}
use sismatic.Outbox.Drain.{claim_next}
use sismatic.Outbox.Settle.{settle, observe}
use sismatic.Outbox.Queues.{WellFormed, well_queued}
use sismatic.Outbox.Claims.{claim_next-WellFormed}
use sismatic.Outbox.Settling.{settle-WellFormed, observe-WellFormed}
use sismatic.Outbox.Cancellation.{cancel_queued-WellFormed}
use sismatic.Outbox.Submission.{AllNew, submit-WellFormed}

-- A submission brings ids that are new and all different, as its caller draws them at random.
pub data Step (c : Chrono) : Outbox → Outbox → Type 0 where
  submits :
      (o : Outbox) (s : Submission)
      → distinct s.ids ≡ true
      → AllNew s.ids o
      → Step c o (submit s o).1
  claims : (o : Outbox) (device : String) (at : Timestamp) → Step c o (claim_next c device at o).1
  settles :
      (o : Outbox) (id : String) (outcome : Outcome) (at : Timestamp)
      → Step c o (settle c id outcome at o).1
  observes : (o : Outbox) (device : String) (s : RecordingState) → Step c o (observe device s o)
  cancels : (o : Outbox) (device reason : String) → Step c o (cancel_queued device reason o).0
  forgets : (o : Outbox) (group : String) → Step c o (forget_group group o).0
  retunes : (o : Outbox) (n : ℕ) → Step c o (set_max_attempts n o)

pub data Reach (c : Chrono) (start : Outbox) : Outbox → Type 0 where
  here : Reach c start start
  next : {o o' : Outbox} → Reach c start o → Step c o o' → Reach c start o'

pub Step-WellFormed : {c : Chrono} {o o' : Outbox} → Step c o o' → WellFormed o → WellFormed o'
unfolding forget_group set_max_attempts
Step-WellFormed (submits o s d new) w = submit-WellFormed w s d new
Step-WellFormed {c} (claims o device at) w = claim_next-WellFormed w c device at
Step-WellFormed {c} (settles o id outcome at) w = settle-WellFormed w c id outcome at
Step-WellFormed (observes o device s) w = observe-WellFormed w device s
Step-WellFormed (cancels o device reason) w = cancel_queued-WellFormed w device reason
Step-WellFormed (forgets o group) w = record { queues = w.queues }
Step-WellFormed (retunes o n) w = record { queues = w.queues }

pub with_max_attempts-WellFormed : (n : ℕ) → WellFormed (with_max_attempts n)
unfolding with_max_attempts well_queued
with_max_attempts-WellFormed n = record {
  queues = λ j. ground (arith, get-empty {V = DeviceLog} j);
}

pub Reach-keeps : {c : Chrono} {o o' : Outbox} → Reach c o o' → WellFormed o → WellFormed o'
Reach-keeps here w = w
Reach-keeps (next r s) w = Step-WellFormed s (Reach-keeps r w)

-- After any history of submissions that bring new and different ids, claims, settlements,
-- observations, cancellations, forgotten groups and new limits on attempts, in any order, from an
-- empty outbox, each queue holds ids of pending rows of its own device, and none of them twice.
pub Reach-WellFormed :
    (c : Chrono) (n : ℕ) (o : Outbox) → Reach c (with_max_attempts n) o → WellFormed o
Reach-WellFormed c n o r = Reach-keeps r (with_max_attempts-WellFormed n)
