-- ===== src/Tests/Dispatch.antt =====
-- A dispatch of the relay at work: the two members of a hall, told to start.
use sismatic.Common.{ℕ, suc, String, ◌≡◌, refl, true, ok, [], ◌∷◌, contains, List, distinct, err}
use sismatic.Protocol.Values.{Value}
use sismatic.Control.Device.{ConnectError, DeviceError}
use sismatic.Control.Group.{MemberDone, run_group}
use sismatic.Control.Gathered.{all_answered}
use sismatic.Relay.Outcomes.{own_outcome, member_outcome_lem}
use sismatic.Fleet.Registry.{Device, Registry, build}
use sismatic.Relay.Dispatch.{Runner, Relaying, dispatch_one, member_outcome}
use sismatic.Relay.Dispatched.{Landed, dispatch_one_lands}
use sismatic.Store.Policy.{Claim}
use sismatic.Tests.Fixtures.{tally, ticks, both_queued, taken_row}
use sismatic.Tests.Outbox.{both_rows, both_claimed}
use sismatic.Tests.Fleet.{no_device}
use sismatic.Tests.Protocol.{mute}

-- Every device answers what it was asked; the state counts the commands.
abbrev echoing : Runner
echoing = record {
  State = ℕ;
  run = λ device instruction n. (ok (Value.ack instruction.payload), suc n);
  failure_text = λ e. "failed";
  translate_error_text = λ e. "unknown";
  parsers = mute;
}

abbrev clock : ℕ → String
clock n = ticks (suc n)

abbrev waiting : Relaying echoing tally clock
waiting = record { state = 0; outbox = both_queued; readings = 0 }

abbrev left : Device
left = record { config = record no_device { id = "left" }; handle = 0; auto_disabled = 0 }

abbrev both_known : Registry
both_known = build (left.config ∷ record no_device { id = "right" } ∷ []) []

dispatch_one_lands_example :
    ((dispatch_one echoing tally clock left both_known waiting).0 ≡ true)
    × Landed echoing tally clock "b" (dispatch_one echoing tally clock left both_known waiting).1
dispatch_one_lands_example =
    dispatch_one_lands echoing tally clock left both_known waiting (Claim.batch "take" both_rows)
      "b" both_claimed (unfold contains in refl)

-- The left member has answered, the right one has not been reached.
abbrev half : List MemberDone
half =
    ("left", ok (Value.ack "Y1"))
    ∷ ("right", err (DeviceError.connect (ConnectError.failed "down")))
    ∷ []

member_outcome_lem_example :
    member_outcome echoing tally clock "take" (run_group "take" half) (taken_row "a" "left")
    ≡ own_outcome echoing "take" "left" (all_answered half) (ok (Value.ack "Y1"))
member_outcome_lem_example =
    member_outcome_lem echoing tally clock "take" half (taken_row "a" "left") (ok (Value.ack "Y1"))
      (unfold distinct contains in refl) refl
