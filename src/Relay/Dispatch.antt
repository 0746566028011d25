-- ===== src/Relay/Dispatch.antt =====
-- crates/sismatic-intent-relay/src/relay.rs: `dispatch_one` and what it calls, as a client of the
-- outbox, the registry and the devices. What running an instruction on a device does is the interface
-- `Runner`, on a state of its own; a group's members run in their order. The clock is an argument, and
-- its readings are counted.
use Prim.Native.String.{◌++◌ as ◌<>◌}
use sismatic.Common.{
  ℕ, suc, String, Bool, true, false, Option, none, some, List, [], ◌∷◌, Result, ok, err,
}
use sismatic.Common.Dict
use sismatic.Common.Dict.{Dict}
use sismatic.Api.{WriteRecord, Timestamp, ReadValue, RecordingState, Intent, set_metadata}
use sismatic.Store.Policy.{Outcome, Claim, one, batch}
use sismatic.Outbox.State.{Outbox, Chrono}
use sismatic.Outbox.Drain.{claim_next}
use sismatic.Outbox.Settle.{settle, observe}
use sismatic.Relay.Recovery.{is_recording}
use sismatic.Protocol.Values.{Value, as_state, to_dto}
use sismatic.Protocol.Replies.{Instruction}
use sismatic.Protocol.Queries.{Query}
use sismatic.Protocol.Payloads.{Parsers}
use sismatic.Protocol.Instructions.{TranslateError, to_instruction, query_instruction}
use sismatic.Fleet.Registry.{Device, Registry}
use sismatic.Control.Device.{DeviceError}
use sismatic.Control.Group.{MemberDone, GroupError, run_group}

pub record Runner : Type 1 where
  pub State : Type 0
  pub run : Device → Instruction → State → Result Value DeviceError × State
  pub failure_text : DeviceError → String
  pub translate_error_text : TranslateError → String
  pub parsers : Parsers

-- `collect` into a map: of two entries of one id the later stays.
unfoldable pub by_device {ℓ} : {V : Type ℓ} → List (String × V) → Dict V → Dict V
by_device [] found = found
by_device ((id, v) ∷ rest) found = by_device rest (Dict.insert id v found)

module _ (w : Runner) (c : Chrono) (clock : ℕ → Timestamp) where
  pub record Relaying : Type 0 where
    pub state : w.State
    pub outbox : Outbox
    pub readings : ℕ

  -- `report`: an outcome that cannot be recorded is logged and no more.
  unfoldable pub report : String → Outcome → Relaying → Relaying
  report id outcome s = record s {
    outbox = (settle c id outcome (clock s.readings) s.outbox).1;
    readings = suc s.readings;
  }

  unfoldable pub settle_all : List WriteRecord → (WriteRecord → Outcome) → Relaying → Relaying
  settle_all [] outcome_for s = s
  settle_all (r ∷ rest) outcome_for s = settle_all rest outcome_for (report r.id (outcome_for r) s)

  -- The state that the device answers, folded into the desired one.
  unfoldable pub observe_answer :
      String → Result Value DeviceError → Outbox → Option RecordingState × Outbox
  observe_answer id (err e) o = (none, o)
  observe_answer id (ok value) o = elim (as_state value) [
    | none ↦ (none, o)
    | some seen ↦ (some seen, observe id seen o)
  ]

  -- `observe_state`.
  unfoldable pub ask_state : Device → Relaying → Option RecordingState × Relaying
  ask_state d s =
      let answered = w.run d (query_instruction w.parsers Query.running_state) s.state in
      let observed = observe_answer d.config.id answered.0 s.outbox in
      (observed.0, record s { state = answered.1; outbox = observed.1 })

  -- Whether the write waits for a recording to end: metadata, where the device records.
  unfoldable pub frozen : Intent → Device → Relaying → Bool × Relaying
  frozen (set_metadata _ _) d s =
      let asked = ask_state d s in
      (elim asked.0 [ none ↦ false | some seen ↦ is_recording seen ], asked.1)
  frozen _ d s = (false, s)

  abbrev outcome_of : Result Value DeviceError → Outcome
  outcome_of (ok value) = Outcome.succeeded (to_dto value)
  outcome_of (err e) = Outcome.failed (w.failure_text e)

  unfoldable pub dispatch_alone : Device → WriteRecord → Relaying → Relaying
  dispatch_alone d r s =
      let checked = frozen r.intent d s in
      elim checked.0 [
        | true ↦
            report r.id
              (Outcome.failed "a recording was in progress when this write reached the device")
              checked.1
        | false ↦ elim (to_instruction w.parsers r.intent) [
          | err e ↦ report r.id (Outcome.failed (w.translate_error_text e)) checked.1
          | ok instruction ↦
              let ran = w.run d instruction checked.1.state in
              report r.id (outcome_of ran.0) (record checked.1 { state = ran.1 })
        ]
      ]

  -- The members of a batch in the registry, or the first device that it does not hold.
  unfoldable pub members_of : Registry → List WriteRecord → Result (List Device) String
  members_of registry [] = ok []
  members_of registry (r ∷ rest) = elim (Dict.get r.device registry.devices) [
    | none ↦ err r.device
    | some d ↦ elim (members_of registry rest) [ err missing ↦ err missing | ok ds ↦ ok (d ∷ ds) ]
  ]

  -- The tasks of `DeviceGroup::run`.
  unfoldable pub run_members : List Device → Instruction → w.State → List MemberDone × w.State
  run_members [] i s = ([], s)
  run_members (d ∷ ds) i s =
      let ran = w.run d i s in
      let others = run_members ds i ran.1 in ((d.config.id, ran.0) ∷ others.0, others.1)

  -- What a member's row is settled with, once its group has run.
  unfoldable pub member_outcome :
      String → Result (List (String × Value)) GroupError → WriteRecord → Outcome
  member_outcome id (ok values) r = elim (Dict.get r.device (by_device values Dict.empty)) [
    | some value ↦ Outcome.succeeded (to_dto value)
    | none ↦ Outcome.failed "the group returned no value for this member"
  ]
  member_outcome id (err error) r = elim (Dict.get r.device (by_device error.failures Dict.empty)) [
    | some e ↦ Outcome.failed (w.failure_text e)
    | none ↦ Outcome.succeeded (ReadValue.ack (r.device <> " accepted as part of batch " <> id))
  ]

  unfoldable pub dispatch_batch : Registry → String → List WriteRecord → Relaying → Relaying
  dispatch_batch registry id [] s = s
  dispatch_batch registry id (first ∷ rest) s = elim (to_instruction w.parsers first.intent) [
    | err e ↦ settle_all (first ∷ rest) (λ _. Outcome.failed (w.translate_error_text e)) s
    | ok instruction ↦ elim (members_of registry (first ∷ rest)) [
      | err missing ↦
          settle_all (first ∷ rest)
            (λ _. Outcome.failed ("member '" <> missing <> "' is not in the registry")) s
      | ok members ↦
          let ran = run_members members instruction s.state in
          settle_all (first ∷ rest) (member_outcome id (run_group id ran.0))
            (record s { state = ran.1 })
    ]
  ]

  abbrev pub dispatch_claim : Device → Registry → Claim → Relaying → Relaying
  dispatch_claim d registry (one r) s = dispatch_alone d r s
  dispatch_claim d registry (batch id rows) s = dispatch_batch registry id rows s

  -- `dispatch_one`: whether there was something to do.
  unfoldable pub dispatch_one : Device → Registry → Relaying → Bool × Relaying
  dispatch_one d registry s =
      let claimed = claim_next c d.config.id (clock s.readings) s.outbox in
      let taken : Relaying = record s { outbox = claimed.1; readings = suc s.readings } in
      elim claimed.0 [
        | err _ ↦ (false, taken)
        | ok claim ↦ elim claim [
          | none ↦ (false, taken)
          | some found ↦ (true, dispatch_claim d registry found taken)
        ]
      ]
