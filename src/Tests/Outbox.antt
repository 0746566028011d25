-- ===== src/Tests/Outbox.antt =====
-- The outbox's theorems at work on the fixtures.
use sismatic.Common.{
  String, ◌≡◌, refl, true, none, some, List, [], ◌∷◌, arith, contains, distinct, same_texts, set_of,
  set_insert, set_remove, select, find_first, all, collect,
}
use sismatic.Common.Dict
use sismatic.Common.Dict.{get-empty}
use sismatic.Api.{WriteRecord}
use sismatic.Store.Policy.{
  Claim, ok, err, one, admit, verb_of, epoch_of, opens_recording, add64, rollback, Outcome,
}
use sismatic.Store.Expectation.{expects}
use sismatic.Outbox.State.{
  with_max_attempts, set_log, set_record, set_batch, device_of, delay_from, elapsed_past,
}
use sismatic.Outbox.Submit.{
  existing_row, admit_all, rows, new_record, enqueued_log, enqueue, enqueue_all, expect, arm,
  admit_and_enqueue, submit,
}
use sismatic.Outbox.Drain.{
  claim_front, claim_head, is_ready_for, decide, ready_members, step_gate, step_batch, claim_heads,
  act, claim_due, claim_next,
}
use sismatic.Outbox.Settle.{settle_row, settle}
use sismatic.Outbox.Cancel.{
  cancel_row, cancel_rows, cancel_if_pending, cancel_pending, cancel_member, cancel_members,
  cancel_batch, cancel_batches, cancel_queued,
}
use sismatic.Api.{already_recording, recording, Acceptance}
use sismatic.Store.Policy.{rejected}
use sismatic.Outbox.State.{log_of}
use sismatic.Outbox.Queues.{WellFormed}
use sismatic.Outbox.History.{Reach, here, next, submits, claims, settles, cancels, Reach-WellFormed}
use sismatic.Outbox.Totality.{Succeeds, claim_next-Succeeds}
use sismatic.Outbox.Members.{MembersAreSets, Reach-MembersAreSets}
use sismatic.Outbox.Release.{Released, claim_next-Released}
use sismatic.Outbox.Stragglers.{IsOpen, claim_next-one-IsOpen, settle-orphan_stalls}
use sismatic.Outbox.Atomicity.{SameView, submit-err-SameView, submit_rejected}
use sismatic.Outbox.Accepted.{IsAccepted, submit-IsAccepted}
use sismatic.Outbox.Idempotency.{answer_again}
use sismatic.Outbox.Claims.{claim_next-WellFormed}
use sismatic.Outbox.Lives.{FollowsOn, Reach-FollowsOn, within_budget, Capped, Reach-within_budget}
use sismatic.Outbox.Queries.{expected}
use sismatic.Outbox.Draining.{Drained}
use sismatic.Outbox.Cleared.{AllCanceled, cancel_queued_clears}
use sismatic.Outbox.Expectations.{told, submit-expected}
use sismatic.Tests.Fixtures.{
  left_back, start_again, taken_row, taken_again, tally, start_both, fresh_outbox, both_queued,
  both_taken, left_gone,
}

start_both-Reach : Reach tally fresh_outbox both_queued
start_both-Reach =
    next here
      (submits fresh_outbox start_both (unfold distinct contains in refl) (λ id _. none_yet id))
  where
    none_yet : (id : String) → Dict.get id fresh_outbox.records ≡ none
    none_yet id = unfold with_max_attempts in get-empty {V = WriteRecord} id

pub left_gone-Reach : Reach tally fresh_outbox left_gone
left_gone-Reach =
    next
      (next (next start_both-Reach (claims both_queued "left" "."))
        (settles both_taken "a" (Outcome.failed "busy") ".."))
      (cancels left_back "left" "gone")

Reach-WellFormed_example : WellFormed left_gone
Reach-WellFormed_example = Reach-WellFormed tally 3 left_gone left_gone-Reach

both_queued-WellFormed : WellFormed both_queued
both_queued-WellFormed = Reach-WellFormed tally 3 both_queued start_both-Reach

both_queued-MembersAreSets : MembersAreSets both_queued
both_queued-MembersAreSets = Reach-MembersAreSets tally 3 both_queued start_both-Reach

claim_next-Succeeds_example : Succeeds (claim_next tally "left" "." both_queued).0
claim_next-Succeeds_example = claim_next-Succeeds both_queued-WellFormed tally "left" "."

abbrev pub both_rows : List WriteRecord
both_rows = taken_row "a" "left" ∷ taken_row "b" "right" ∷ []

pub both_claimed :
    (claim_next tally "left" "." both_queued).0 ≡ ok (some (Claim.batch "take" both_rows))
unfolding with_max_attempts submit existing_row admit_and_enqueue admit_all rows enqueue_all enqueue
    new_record enqueued_log expect expects arm set_record set_log set_batch admit verb_of
    opens_recording epoch_of add64 claim_next claim_due step_batch step_gate ready_members
    is_ready_for decide act claim_heads claim_head claim_front elapsed_past settle settle_row
    device_of delay_from rollback cancel_queued cancel_rows cancel_row cancel_batches cancel_batch
    cancel_members cancel_member cancel_pending cancel_if_pending Dict.get Dict.insert Dict.update
    Dict.remove contains distinct same_texts set_of set_insert set_remove select find_first collect
    all
both_claimed = refl

claim_next-Released_example : Released tally "." both_queued "take" both_rows
claim_next-Released_example =
    claim_next-Released tally "left" "." both_queued "take" both_rows both_queued-WellFormed
      both_queued-MembersAreSets both_claimed

one_claimed : (claim_next tally "left" "..." left_back).0 ≡ ok (some (one taken_again))
unfolding with_max_attempts submit existing_row admit_and_enqueue admit_all rows enqueue_all enqueue
    new_record enqueued_log expect expects arm set_record set_log set_batch admit verb_of
    opens_recording epoch_of add64 claim_next claim_due step_batch step_gate ready_members
    is_ready_for decide act claim_heads claim_head claim_front elapsed_past settle settle_row
    device_of delay_from rollback cancel_queued cancel_rows cancel_row cancel_batches cancel_batch
    cancel_members cancel_member cancel_pending cancel_if_pending Dict.get Dict.insert Dict.update
    Dict.remove contains distinct same_texts set_of set_insert set_remove select find_first collect
    all
one_claimed = refl

claim_next-one-IsOpen_example : IsOpen "take" left_back
claim_next-one-IsOpen_example =
    claim_next-one-IsOpen tally "left" "..." left_back taken_again "take" refl one_claimed

right_in_flight :
    (Dict.get "b" left_gone.records ≡ some (taken_row "b" "right"))
    × (Dict.get "take" left_gone.batches ≡ none)
    × (left_gone.max_attempts ≡ 3)
unfolding with_max_attempts submit existing_row admit_and_enqueue admit_all rows enqueue_all enqueue
    new_record enqueued_log expect expects arm set_record set_log set_batch admit verb_of
    opens_recording epoch_of add64 claim_next claim_due step_batch step_gate ready_members
    is_ready_for decide act claim_heads claim_head claim_front elapsed_past settle settle_row
    device_of delay_from rollback cancel_queued cancel_rows cancel_row cancel_batches cancel_batch
    cancel_members cancel_member cancel_pending cancel_if_pending Dict.get Dict.insert Dict.update
    Dict.remove contains distinct same_texts set_of set_insert set_remove select find_first collect
    all
right_in_flight = (refl, refl, refl)

settle-orphan_stalls_example :
    claim_next tally "right" "....." (settle tally "b" (Outcome.failed "busy") "..." left_gone).1
    ≡ (ok none, (settle tally "b" (Outcome.failed "busy") "..." left_gone).1)
settle-orphan_stalls_example =
    settle-orphan_stalls tally "b" "busy" "..." "....." left_gone (taken_row "b" "right") "take"
      right_in_flight.0 refl refl right_in_flight.1 (rw right_in_flight.2 (ground arith))

start_again_refused :
    (submit start_again both_queued).0 ≡ err (rejected "left" already_recording recording)
unfolding with_max_attempts submit existing_row admit_and_enqueue admit_all rows enqueue_all enqueue
    new_record enqueued_log expect expects arm set_record set_log set_batch admit verb_of
    opens_recording epoch_of add64 claim_next claim_due step_batch step_gate ready_members
    is_ready_for decide act claim_heads claim_head claim_front elapsed_past settle settle_row
    device_of delay_from rollback cancel_queued cancel_rows cancel_row cancel_batches cancel_batch
    cancel_members cancel_member cancel_pending cancel_if_pending Dict.get Dict.insert Dict.update
    Dict.remove contains distinct same_texts set_of set_insert set_remove select find_first collect
    all
start_again_refused = refl

submit-err-SameView_example : SameView both_queued (submit start_again both_queued).1
submit-err-SameView_example =
    submit-err-SameView start_again both_queued (rejected "left" already_recording recording)
      start_again_refused

submit_rejected_example :
    (contains "left" start_again.targets ≡ true)
    × ((log_of "left" both_queued).desired_recording_state ≡ recording)
    × (admit recording (verb_of start_again.intent) ≡ err already_recording)
submit_rejected_example =
    submit_rejected start_again both_queued "left" already_recording recording start_again_refused

abbrev both_accepted : Acceptance
both_accepted = record {
  batch = some "take";
  writes =
      record { id = "a"; device = "left"; epoch = 1 }
      ∷ record { id = "b"; device = "right"; epoch = 1 }
      ∷ [];
}

start_both_accepted :
    (existing_row start_both fresh_outbox ≡ none)
    × ((submit start_both fresh_outbox).0 ≡ ok both_accepted)
    × (distinct start_both.ids ≡ true)
unfolding with_max_attempts submit existing_row admit_and_enqueue admit_all rows enqueue_all enqueue
    new_record enqueued_log expect expects arm set_record set_log set_batch admit verb_of
    opens_recording epoch_of add64 claim_next claim_due step_batch step_gate ready_members
    is_ready_for decide act claim_heads claim_head claim_front elapsed_past settle settle_row
    device_of delay_from rollback cancel_queued cancel_rows cancel_row cancel_batches cancel_batch
    cancel_members cancel_member cancel_pending cancel_if_pending Dict.get Dict.insert Dict.update
    Dict.remove contains distinct same_texts set_of set_insert set_remove select find_first collect
    all
start_both_accepted = (refl, refl, refl)

submit-IsAccepted_example : IsAccepted start_both fresh_outbox both_queued both_accepted
submit-IsAccepted_example =
    submit-IsAccepted start_both fresh_outbox both_accepted start_both_accepted.2
      start_both_accepted.0 start_both_accepted.1

-- Both of the first submission's writes are answered again.
answered_alike : answer_again start_both "left" both_accepted ≡ both_accepted
unfolding set_of set_insert collect contains
answered_alike = refl

taken_there : Dict.get "b" both_taken.records ≡ some (taken_row "b" "right")
unfolding with_max_attempts submit existing_row admit_and_enqueue admit_all rows enqueue_all enqueue
    new_record enqueued_log expect expects arm set_record set_log set_batch admit verb_of
    opens_recording epoch_of add64 claim_next claim_due step_batch step_gate ready_members
    is_ready_for decide act claim_heads claim_head claim_front elapsed_past settle settle_row
    device_of delay_from rollback cancel_queued cancel_rows cancel_row cancel_batches cancel_batch
    cancel_members cancel_member cancel_pending cancel_if_pending Dict.get Dict.insert Dict.update
    Dict.remove contains distinct same_texts set_of set_insert set_remove select find_first collect
    all
taken_there = refl

Reach-FollowsOn_example :
    (r' : WriteRecord) × (Dict.get "b" left_gone.records ≡ some r')
    × FollowsOn (taken_row "b" "right") r'
Reach-FollowsOn_example =
    Reach-FollowsOn tally both_taken left_gone "b" (taken_row "b" "right") taken-Reach
      (claim_next-WellFormed both_queued-WellFormed tally "left" ".") taken_there
  where
    taken-Reach : Reach tally both_taken left_gone
    taken-Reach =
        next (next here (settles both_taken "a" (Outcome.failed "busy") ".."))
          (cancels left_back "left" "gone")

both_queued-Capped : (r : Reach tally fresh_outbox both_queued) × Capped 3 r
unfolding with_max_attempts submit existing_row admit_and_enqueue admit_all rows enqueue_all enqueue
    new_record enqueued_log expect expects arm set_record set_log set_batch admit verb_of
    opens_recording epoch_of add64 claim_next claim_due step_batch step_gate ready_members
    is_ready_for decide act claim_heads claim_head claim_front elapsed_past settle settle_row
    device_of delay_from rollback cancel_queued cancel_rows cancel_row cancel_batches cancel_batch
    cancel_members cancel_member cancel_pending cancel_if_pending Dict.get Dict.insert Dict.update
    Dict.remove contains distinct same_texts set_of set_insert set_remove select find_first collect
    all
both_queued-Capped = (
  next here (submits fresh_outbox start_both refl (λ id _. get-empty {V = WriteRecord} id)),
  (ground arith, ground arith),
)

a_waits : (a : WriteRecord) × (Dict.get "a" both_queued.records ≡ some a) × (a.attempts ≡ 0)
unfolding with_max_attempts submit existing_row admit_and_enqueue admit_all rows enqueue_all enqueue
    new_record enqueued_log expect expects arm set_record set_log set_batch admit verb_of
    opens_recording epoch_of add64 claim_next claim_due step_batch step_gate ready_members
    is_ready_for decide act claim_heads claim_head claim_front elapsed_past settle settle_row
    device_of delay_from rollback cancel_queued cancel_rows cancel_row cancel_batches cancel_batch
    cancel_members cancel_member cancel_pending cancel_if_pending Dict.get Dict.insert Dict.update
    Dict.remove contains distinct same_texts set_of set_insert set_remove select find_first collect
    all
a_waits = (_, refl, refl)

Reach-within_budget_example : within_budget 3 a_waits.0 ≡ true
Reach-within_budget_example =
    Reach-within_budget tally 3 3 both_queued both_queued-Capped.0 "a" a_waits.0 (ground arith)
      (ground arith) both_queued-Capped.1 a_waits.1

left_known : Dict.get "left" both_queued.logs ≡ some (log_of "left" both_queued)
unfolding with_max_attempts submit existing_row admit_and_enqueue admit_all rows enqueue_all enqueue
    new_record enqueued_log expect expects arm set_record set_log set_batch admit verb_of
    opens_recording epoch_of add64 claim_next claim_due step_batch step_gate ready_members
    is_ready_for decide act claim_heads claim_head claim_front elapsed_past settle settle_row
    device_of delay_from rollback cancel_queued cancel_rows cancel_row cancel_batches cancel_batch
    cancel_members cancel_member cancel_pending cancel_if_pending Dict.get Dict.insert Dict.update
    Dict.remove contains distinct same_texts set_of set_insert set_remove select find_first collect
    all
left_known = refl

cancel_queued_clears_example :
    Drained "left" both_queued (cancel_queued "left" "gone" both_queued).0
    × AllCanceled "gone"
        (log_of "left" both_queued).queue
        (cancel_queued "left" "gone" both_queued).0.records
cancel_queued_clears_example =
    cancel_queued_clears "left" "gone" both_queued (log_of "left" both_queued)
      both_queued-WellFormed left_known

submit-expected_example :
    expected "hall" "RUNNING_STATE" both_queued
    ≡ told start_both "hall" "RUNNING_STATE" (expected "hall" "RUNNING_STATE" fresh_outbox)
submit-expected_example =
    submit-expected start_both fresh_outbox both_accepted "hall" "RUNNING_STATE"
      start_both_accepted.0 start_both_accepted.1
