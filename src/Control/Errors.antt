-- ===== src/Control/Errors.antt =====
-- The texts of the errors that a write is reported with: the `Display`s of
-- crates/sismatic-core/src/devices (device.rs, controller.rs, transport.rs, connector.rs),
-- crates/sismatic-core/src/protocol/sis_error.rs and instructions/setting.rs, and
-- crates/sismatic-intent-relay/src/translate.rs. How a duration and an escaped character are written
-- is the standard library's, and an argument.
use Prim.Native.Char.{Char}
use Prim.Native.String.{◌++◌ as ◌<>◌}
use sismatic.Common.{ℕ, ◌/◌, ◌%◌, String, Option, none, some, decimal, eqb, if◌then◌else◌}
use sismatic.Devices.AutoDisabled.{VetoSource, declared, inferred}
use sismatic.Protocol.Replies.{SisError}
use sismatic.Protocol.Encoding.{ValueError}
use sismatic.Protocol.Instructions.{TranslateError}
use sismatic.Control.Exchange.{TransportError, ControllerError}
use sismatic.Control.Device.{ConnectError, DeviceError}

unfoldable pub description : SisError → Option String
description e =
    if eqb e.code 10
    then some "unrecognized command"
    else if eqb e.code 12
    then some "invalid port number"
    else if eqb e.code 13
    then some "invalid parameter (number is out of range)"
    else if eqb e.code 14
    then some "not valid for this configuration"
    else if eqb e.code 17
    then some "invalid command for signal type"
    else if eqb e.code 18
    then some "system timed out"
    else if eqb e.code 22
    then some "busy"
    else if eqb e.code 24
    then some "privilege violation"
    else if eqb e.code 26
    then some "maximum connections exceeded"
    else if eqb e.code 28
    then some "bad file name or file not found"
    else none

-- The code in two digits at least; it is below 100.
unfoldable pub sis_error_text : SisError → String
unfolding description decimal
sis_error_text e =
    "E"
    <> decimal (e.code / 10)
    <> decimal (e.code % 10)
    <> ": "
    <> (elim (description e) [ some what ↦ what | none ↦ "undocumented error code" ])

unfoldable pub transport_error_text : TransportError → String
transport_error_text (TransportError.io e) = "transport i/o error: " <> e

-- `VetoSource`'s `Display`.
unfoldable pub source_text : VetoSource → String
source_text declared = "disabled_fields"
source_text inferred = "repeated refusals"

unfoldable pub value_error_text : (Char → String) → ValueError → String
unfolding decimal
value_error_text escape (ValueError.not_a_flag v) =
    "'" <> v <> "' is not a flag; use 1/0, true/false, on/off"
value_error_text escape (ValueError.not_a_port v) = "'" <> v <> "' is not a TCP port in 1..=65535"
value_error_text escape (ValueError.too_long limit got) =
    "value is " <> decimal got <> " characters; this setting accepts " <> decimal limit
value_error_text escape (ValueError.illegal_character c) =
    "'" <> escape c <> "' cannot appear in this value; it delimits the field on the wire"
value_error_text escape (ValueError.not_an_rtmp_url v) =
    "'" <> v
    <> "' is not an RTMP publish target; expected rtmp://host/... or rtmps://host/... (empty clears the target)"

unfoldable pub translate_error_text : (Char → String) → TranslateError → String
unfolding value_error_text
translate_error_text escape (TranslateError.unknown_register name) =
    "no metadata register named '" <> name <> "'"
translate_error_text escape (TranslateError.unknown_setting name) =
    "no device setting named '" <> name <> "'"
translate_error_text escape (TranslateError.metadata_through_settings name) =
    "'" <> name
    <> "' is a metadata register; submit it to the metadata route, which enforces the recording freeze"
translate_error_text escape (TranslateError.value e) = value_error_text escape e

module _ (debug : ℕ → String) where
  unfoldable pub controller_error_text : ControllerError → String
  unfolding sis_error_text transport_error_text
  controller_error_text (ControllerError.timeout i after) =
      "`" <> i <> "` timed out after " <> debug after
  controller_error_text (ControllerError.rejected i e) =
      "device refused `" <> i <> "` with " <> sis_error_text e
  controller_error_text (ControllerError.connection_closed i) =
      "channel closed during `" <> i <> "`"
  controller_error_text (ControllerError.transport i e) =
      "`" <> i <> "`: " <> transport_error_text e

  unfoldable pub connect_error_text : ConnectError → String
  connect_error_text (ConnectError.failed e) = e
  connect_error_text (ConnectError.timeout d) = "connect timed out after " <> debug d

  unfoldable pub device_error_text : DeviceError → String
  unfolding controller_error_text connect_error_text source_text
  device_error_text (DeviceError.connect e) = "connect failed: " <> connect_error_text e
  device_error_text (DeviceError.command e) = controller_error_text e
  device_error_text (DeviceError.cold retry_in) =
      "device is cold; dialing again possible in " <> debug retry_in
  device_error_text (DeviceError.disabled field by none) =
      "`" <> field <> "` is disabled on this device (" <> source_text by <> ")"
  device_error_text (DeviceError.disabled field by (some retry_in)) =
      "`"
      <> field
      <> "` is disabled on this device ("
      <> source_text by
      <> "); it will be tried again in "
      <> debug retry_in
