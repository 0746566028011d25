-- ===== src/Tests/Control.antt =====
-- A device over a stale connection, and one behind its gate.
use sismatic.Common.{
  ok, ℕ, suc, ◌≡◌, refl, false, none, some, [], ◌∷◌, err, arith, contains, as_bytes, List,
}
use sismatic.Common.Dict
use sismatic.Devices.AutoDisabled.{AutoDisabled, declared, veto}
use sismatic.Fleet.Config.{DeviceConfig}
use sismatic.Protocol.Values.{Value}
use sismatic.Protocol.Replies.{
  done, Instruction, in_reply, complete_lines, first_error, valid_prefix, valid_from,
}
use sismatic.Control.Exchange.{Transport, bytes, run, read_loop, judge}
use sismatic.Control.Device.{
  Dial, Done, DeviceError, Link, Outside, opened, field_veto, exec_loop, run_device, exec,
  dial_device, dial_through, connect_device, is_refusal, refused, ConnectError,
}
use sismatic.Control.Links.{IsSound, LinkReach, LinkReach-IsSound}
use sismatic.Control.Execution.{Executed, exec_loop-ends}
use sismatic.Control.Gate.{failed_dial_gates, run_all, turned_away}
use sismatic.Tests.Fleet.{no_device}

-- Any answer will do.
abbrev ping : Instruction
ping = record { name = "PING"; payload = "Q"; parse_step = λ reply. done (Value.ack "1") }

abbrev closed : Transport
closed = record { refuses = none; reads = bytes [] ∷ []; written = [] }

abbrev answering : Transport
answering = record { refuses = none; reads = bytes (b'1' ∷ []) ∷ []; written = [] }

abbrev stale : Link
stale = record {
  conn = some (record { transport = closed; exchange_timeout = 5 });
  cold_until = none;
}

abbrev one_dial : Outside
one_dial = record { dials = opened answering ∷ []; readings = 0 }

exec_loop-ends_example :
    (r : Done) × ((fuel : ℕ)
      → exec_loop no_device (λ n. n) (suc (suc fuel)) ping Dial.when_warm false stale one_dial
        ≡ some r)
    × Executed no_device (λ n. n) one_dial r
exec_loop-ends_example = exec_loop-ends no_device (λ n. n) ping Dial.when_warm stale one_dial

abbrev unlinked : Link
unlinked = record { conn = none; cold_until = none }

abbrev linked : Link
linked = record {
  conn = some (record {
    transport = record answering { reads = []; written = as_bytes "Q" ∷ [] };
    exchange_timeout = 0;
  });
  cold_until = none;
}

pinged :
    run_device no_device (λ n. n) ping Dict.empty unlinked one_dial
    ≡ some (ok (Value.ack "1"), linked, record { dials = []; readings = 1 })
unfolding run_device field_veto contains veto Dict.get exec exec_loop dial_device dial_through
    connect_device run read_loop judge in_reply complete_lines first_error valid_prefix valid_from
    is_refusal
pinged = refl

LinkReach-IsSound_example : IsSound linked
LinkReach-IsSound_example =
    LinkReach-IsSound no_device (λ n. n) linked
      (LinkReach.ran ping Dict.empty unlinked one_dial _ pinged LinkReach.fresh)

-- A refused dial shuts the gate for nine ticks.
abbrev gated_config : DeviceConfig
gated_config = record no_device { cold_backoff = some 9; disabled_fields = "TITLE" ∷ [] }

abbrev refusing : Outside
refusing = record { dials = refused (ConnectError.failed "down") ∷ []; readings = 0 }

abbrev gated_link : Link
gated_link = record { conn = none; cold_until = some 9 }

abbrev dialed_once : Outside
dialed_once = record { dials = []; readings = 1 }

refused_once :
    exec gated_config (λ n. n) ping Dial.always unlinked refusing
    ≡ some (err (DeviceError.connect (ConnectError.failed "down")), gated_link, dialed_once)
unfolding exec exec_loop dial_device dial_through connect_device
refused_once = refl

abbrev two_commands : List (Instruction × AutoDisabled)
two_commands = (record ping { name = "TITLE" }, Dict.empty) ∷ (ping, Dict.empty) ∷ []

failed_dial_gates_example :
    run_all gated_config (λ n. n) two_commands gated_link dialed_once
    ≡ some (
      (turned_away gated_config (λ n. n) 9 1 two_commands).0,
      gated_link,
      record dialed_once { readings = (turned_away gated_config (λ n. n) 9 1 two_commands).1 },
    )
failed_dial_gates_example =
    failed_dial_gates gated_config (λ n. n) ping Dial.always unlinked gated_link refusing
      dialed_once (ConnectError.failed "down") 9 two_commands refused_once refl
      (λ m above below. omega arith)

turned_away_twice :
    (turned_away gated_config (λ n. n) 9 1 two_commands).0
    ≡ err (DeviceError.disabled "TITLE" declared none) ∷ err (DeviceError.cold 6) ∷ []
unfolding contains veto Dict.get
turned_away_twice = refl
