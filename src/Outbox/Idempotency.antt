-- ===== src/Outbox/Idempotency.antt =====
-- The idempotency key: an accepted submission that comes again is answered, and not repeated.
use sismatic.Common.{
  String, ◌≡◌, true, Option, none, some, List, [], ◌∷◌, map, distinct, length, collect, set_of,
}
use sismatic.Common.Dict
use sismatic.Common.Dict.{Dict}
use sismatic.Api.{Acceptance, Accepted}
use sismatic.Store.Policy.{Submission}
use sismatic.Outbox.State.{Outbox}
use sismatic.Outbox.Submit.{Admission, Row, rows, enqueue_all, accepted_row, arm, expect}
use sismatic.Outbox.Replays.{newest}

-- The last of the writes that the answer gives to the device.
abbrev pub last_write : Acceptance → String → Option Accepted
last_write a device = newest (λ w. w.device) device none a.writes

-- The answer to a repetition: the submission's batch, with the last write of each of its devices, in
-- the order of their ids; or where it has no batch, the last write of its first device.
abbrev pub answer_again : Submission → String → Acceptance → Acceptance
answer_again s device a = record {
  batch = s.batch;
  writes = collect (last_write a) (elim s.batch [ none ↦ device ∷ [] | some _ ↦ set_of s.targets ]);
}

accepted_if : Option Row → Option Accepted
accepted_if none = none
accepted_if (some r) = some (accepted_row r)

module _ (s : Submission) (key : String) (keyed : s.idempotency_key ≡ some key)
    (d : distinct s.ids ≡ true) (n : length s.ids ≡ length s.targets) (admitted : List Admission)
    (m : length admitted ≡ length s.targets) (o : Outbox) where
  abbrev accepted_rows : List Row
  accepted_rows = rows s.targets s.ids admitted

  abbrev after : Outbox
  after = arm s (expect s (enqueue_all s accepted_rows o))

  abbrev answer : Acceptance
  answer = record { batch = s.batch; writes = map accepted_row accepted_rows }
