-- ===== src/Tests/Http.antt =====
-- A group that was told to record, of which one member has answered.
use sismatic.Common.{◌≡◌, refl, none, [], ◌∷◌, ok, collect, find_first}
use sismatic.Api.{GroupFieldState, state, started, Barrier}
use sismatic.Catalog.Listing.{group, find_by_id}
use sismatic.Fleet.Summaries.{GroupSummary}
use sismatic.Reads.State.{MemoryStore, with_budget, upsert_latest, latest}
use sismatic.Outbox.Queries.{expected}
use sismatic.Http.Target.{Listed}
use sismatic.Http.Paging.{normalize_field}
use sismatic.Http.GroupReads.{read_group_field}
use sismatic.Http.Verdict.{verdict, read_group_field-verdict}
use sismatic.Tests.Fixtures.{both_queued}

abbrev hall_summary : GroupSummary
hall_summary = record {
  id = "hall";
  members = "left" ∷ "right" ∷ [];
  barrier_timeout_secs = 5;
  barrier = Barrier.fail_batch;
}

abbrev halls : Listed
halls = record { devices = []; groups = hall_summary ∷ [] }

abbrev one_answer : MemoryStore
one_answer =
    upsert_latest (record { read = 96; slot = 80; alarm = 48 })
      (record { device = "left"; field = "RUNNING_STATE"; value = state started; at = "1" })
      (with_budget none)

read_group_field-verdict_example :
    (s : GroupFieldState) × (read_group_field halls one_answer both_queued "hall" "running-state"
      ≡ ok s)
    × (s.sync
        ≡ verdict (expected "hall" (normalize_field "running-state") both_queued) (
            collect
              (λ device. latest device (normalize_field "running-state") one_answer)
              ("left" ∷ "right" ∷ [])))
read_group_field-verdict_example =
    read_group_field-verdict halls one_answer both_queued "hall" "running-state" hall_summary
      (unfold group find_by_id find_first in refl)
