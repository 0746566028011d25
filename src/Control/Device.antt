-- ===== src/Control/Device.antt =====
-- crates/sismatic-core/src/devices/device.rs: a device's link, its gate, and its commands. A command
-- holds the link's mutex from beginning to end. What happens outside is the state `Outside`: what the
-- connector's next dials come to, and how often the clock was read; the clock, in nanoseconds, is an
-- argument.
use sismatic.Common.{
  ℕ, zero, suc, ◌+◌, ◌-◌, String, Bool, true, false, not, ◌&&◌, Option, none, some, List, [], ◌∷◌,
  Result, ok, err, contains, ltb, if◌then◌else◌,
}
use sismatic.Devices.AutoDisabled.{AutoDisabled, VetoSource, declared, inferred, veto}
use sismatic.Fleet.Config.{DeviceConfig}
use sismatic.Protocol.Values.{Value}
use sismatic.Protocol.Replies.{Instruction}
use sismatic.Control.Exchange.{Transport, Controller, ControllerError, rejected, run}

-- crates/sismatic-core/src/devices/connector.rs
pub data ConnectError : Type 0 where
  failed : String → ConnectError
  timeout : ℕ → ConnectError

-- What a dial comes to: a transport, an error, or nothing before the timeout.
pub data Dialed : Type 0 where
  opened : Transport → Dialed
  refused : ConnectError → Dialed
  stalled : Dialed

pub data DeviceError : Type 0 where
  connect : ConnectError → DeviceError
  command : ControllerError → DeviceError
  cold : ℕ → DeviceError
  disabled : String → VetoSource → Option ℕ → DeviceError

pub record Link : Type 0 where
  pub conn : Option Controller
  pub cold_until : Option ℕ

pub data Connectivity : Type 0 where
  warm busy cold gated : Connectivity

pub data Dial : Type 0 where
  when_warm always : Dial

pub record Outside : Type 0 where
  pub dials : List Dialed
  pub readings : ℕ

abbrev pub Done : Type 0
Done = Result Value DeviceError × Link × Outside

-- `DeviceError::is_refusal`.
unfoldable pub is_refusal : DeviceError → Bool
is_refusal (DeviceError.command (rejected _ _)) = true
is_refusal _ = false

-- `field_veto`: the configuration's before the one that refusals have led to.
unfoldable pub field_veto :
    DeviceConfig → ℕ → String → AutoDisabled → Option (VetoSource × Option ℕ)
unfolding contains veto
field_veto config now field fields =
    if contains field config.disabled_fields
    then some (declared, none)
    else elim (veto now field fields) [ none ↦ none | some retry_in ↦ some (inferred, retry_in) ]

-- `connectivity`: the flag says whether the mutex is free.
unfoldable pub connectivity : Bool → ℕ → Link → Connectivity
connectivity false now link = Connectivity.busy
connectivity true now link = elim link.conn [
  | some _ ↦ Connectivity.warm
  | none ↦ elim link.cold_until [
    | some until ↦ if ltb now until then Connectivity.gated else Connectivity.cold
    | none ↦ Connectivity.cold
  ]
]

-- The next dial; where no more is said, it stalls.
abbrev next_dial : List Dialed → Dialed × List Dialed
next_dial [] = (stalled, [])
next_dial (d ∷ dials) = (d, dials)

module _ (config : DeviceConfig) (clock : ℕ → ℕ) where
  -- `connect`, under the timeout of the configuration.
  unfoldable pub connect_device : Outside → Result Controller DeviceError × Outside
  connect_device out =
      let dialed = next_dial out.dials in
      (
        elim dialed.0 [
          | opened t ↦ ok (record { transport = t; exchange_timeout = config.exchange_timeout })
          | refused e ↦ err (DeviceError.connect e)
          | stalled ↦ err (DeviceError.connect (ConnectError.timeout config.connect_timeout))
        ],
        record out { dials = dialed.1 },
      )

  -- The rest of `dial`, behind the gate.
  unfoldable pub dial_through : Link → Outside → Result Controller DeviceError × Link × Outside
  unfolding connect_device
  dial_through link out =
      let (result, after) = connect_device out in
      elim result [
        | ok controller ↦ (ok controller, record link { cold_until = none }, after)
        | err e ↦ (
          err e,
          record link {
            cold_until = elim config.cold_backoff [
              | none ↦ none
              | some backoff ↦ some (clock after.readings + backoff)
            ];
          },
          record after { readings = suc after.readings },
        )
      ]

  -- `dial`.
  unfoldable pub dial_device :
      Dial → Link → Outside → Result Controller DeviceError × Link × Outside
  unfolding dial_through
  dial_device always link out = dial_through link out
  dial_device when_warm link out = elim link.cold_until [
    | none ↦ dial_through link out
    | some until ↦
        let now = clock out.readings in
        let counted = record out { readings = suc out.readings } in
        let through = dial_through link counted in
        if ltb now until then (err (DeviceError.cold (until - now)), link, counted) else through
  ]

  -- What a round over a connection leaves: the connection stays where the device has answered or has
  -- refused, and is dropped on any other error.
  abbrev pub exchanged : Instruction → Controller → Link → Outside → Done
  exchanged instruction c link out =
      let (result, after) = run instruction c in
      elim result [
        | ok value ↦ (ok value, record link { conn = some after }, out)
        | err e ↦ (
          err (DeviceError.command e),
          record link { conn = if is_refusal (DeviceError.command e) then some after else none },
          out,
        )
      ]

  -- Whether the loop goes round again: on an error over a cached connection, once.
  abbrev pub goes_round : Bool → Done → Bool
  goes_round reconnected (ok _, _, _) = false
  goes_round reconnected (err e, _, _) = not (is_refusal e) && not reconnected

  -- The loop of `exec` on fuel, `none` where the fuel does not last.
  unfoldable pub exec_loop : ℕ → Instruction → Dial → Bool → Link → Outside → Option Done
  exec_loop zero instruction dial reconnected link out = none
  exec_loop (suc fuel) instruction dial reconnected link out = elim link.conn [
    | some c ↦
        let round = exchanged instruction c link out in
        elim (goes_round reconnected round) [
          | false ↦ some round
          | true ↦ exec_loop fuel instruction dial true round.1 round.2
        ]
    | none ↦
        let (result, link', out') = dial_device dial link out in
        elim result [
          | err e ↦ some (err e, link', out')
          | ok c ↦ some (exchanged instruction c link' out')
        ]
  ]

  -- Two rounds are enough.
  unfoldable pub exec : Instruction → Dial → Link → Outside → Option Done
  unfolding exec_loop
  exec instruction dial link out = exec_loop 2 instruction dial false link out

  -- `Device::run`: a vetoed field is not sent.
  unfoldable pub run_device : Instruction → AutoDisabled → Link → Outside → Option Done
  unfolding exec field_veto
  run_device instruction fields link out =
      let counted = record out { readings = suc out.readings } in
      elim (field_veto config (clock out.readings) instruction.name fields) [
        | some (source, retry_in) ↦
            some (err (DeviceError.disabled instruction.name source retry_in), link, counted)
        | none ↦ exec instruction when_warm link counted
      ]

  -- `Device::probe`.
  unfoldable pub probe_device : Instruction → Link → Outside → Option Done
  unfolding exec
  probe_device instruction link out = exec instruction always link out
