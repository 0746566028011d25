-- ===== src/Tests/Fixtures.antt =====
-- A clock, submissions and outboxes for the examples.
use Prim.Native.String.{◌++◌, len}
use Prim.Native.Nat.{◌/◌}
use sismatic.Common.{ℕ, zero, suc, ◌+◌, String, none, some, [], ◌∷◌, leb, not}
use sismatic.Api.{start_recording, WriteRecord, in_flight}
use sismatic.Store.Policy.{Submission, Outcome}
use sismatic.Outbox.State.{Outbox, Chrono, with_max_attempts}
use sismatic.Outbox.Submit.{submit}
use sismatic.Outbox.Drain.{claim_next}
use sismatic.Outbox.Settle.{settle}
use sismatic.Outbox.Cancel.{cancel_queued}

abbrev pub ticks : ℕ → String
ticks zero = ""
ticks (suc n) = "." ++ ticks n

-- An instant is a number of half seconds, and a timestamp is as many dots.
abbrev pub tally : Chrono
tally = record {
  Instant = ℕ;
  parse_from_rfc3339 = λ s. some (len s);
  to_rfc3339 = ticks;
  from_std = λ n. some (n / 500000000);
  plus = λ a d. a + d;
  is_after = λ a b. not (leb a b);
}

-- A start for two members of one group, together.
abbrev pub start_both : Submission
start_both = record {
  ids = "a" ∷ "b" ∷ [];
  targets = "left" ∷ "right" ∷ [];
  group = some "hall";
  batch = some "take";
  barrier = none;
  intent = start_recording;
  at = "";
  idempotency_key = some "key";
}

abbrev pub fresh_outbox : Outbox
fresh_outbox = with_max_attempts 3

-- Both members have been told to start.
abbrev pub both_queued : Outbox
both_queued = (submit start_both fresh_outbox).1

-- Both rows have been taken.
abbrev pub both_taken : Outbox
both_taken = (claim_next tally "left" "." both_queued).1

-- The left member's row waits for its second attempt.
abbrev pub left_back : Outbox
left_back = (settle tally "a" (Outcome.failed "busy") ".." both_taken).1

-- The left member leaves the fleet while the right one's write is in flight.
abbrev pub left_gone : Outbox
left_gone = (cancel_queued "left" "gone" left_back).0

-- The same group told to start once more, under no key.
abbrev pub start_again : Submission
start_again = record start_both {
  ids = "c" ∷ "d" ∷ [];
  batch = some "second";
  idempotency_key = none;
}

-- The left member told to start once more, under the first key.
abbrev pub start_repeat : Submission
start_repeat = record start_both { ids = "e" ∷ []; targets = "left" ∷ [] }

abbrev pub taken_row : String → String → WriteRecord
taken_row id device = record {
  id = id;
  device = device;
  intent = start_recording;
  batch = some "take";
  epoch = 1;
  status = in_flight;
  attempts = 1;
  enqueued_at = "";
  updated_at = ".";
  not_before = "";
}

abbrev pub taken_again : WriteRecord
taken_again = record (taken_row "a" "left") { attempts = 2; updated_at = "..."; not_before = "..." }
