-- ===== src/Protocol/Instructions.antt =====
-- crates/sismatic-core/src/protocol/instructions: the instruction of a query, a setting, a register or
-- a command, and the one that an intent asks for (crates/sismatic-intent-relay/src/translate.rs).
use Prim.Native.String.{◌++◌ as ◌<>◌}
use sismatic.Common.{String, none, some, Result, ok, err, ◌>>=◌, ok_or, map_err, decimal}
use sismatic.Api.{
  Intent, start_recording, stop_recording, pause_recording, set_metadata, set_setting,
}
use sismatic.Protocol.Replies.{Instruction}
use sismatic.Protocol.Queries.{Query, query_name}
use sismatic.Protocol.Settings.{Setting, setting_name, setting_from_str}
use sismatic.Protocol.Registers.{Register, register_name, register_from_str}
use sismatic.Protocol.Commands.{Command, command_name}
use sismatic.Protocol.Encoding.{Form, ValueError, encode}
use sismatic.Protocol.Payloads.{
  Parsers, esc_cr, shorten, query_payload, shape, form, verb, index, command_verb,
}

pub data TranslateError : Type 0 where
  unknown_register unknown_setting metadata_through_settings : String → TranslateError
  value : ValueError → TranslateError

module _ (p : Parsers) where
  unfoldable pub query_instruction : Query → Instruction
  unfolding query_payload query_name
  query_instruction q = record {
    name = query_name q;
    payload = (query_payload q).0;
    parse_step = p.of_query (query_payload q).1;
  }

  unfoldable pub setting_instruction : Setting → String → Result Instruction ValueError
  unfolding shape form verb setting_name encode esc_cr
  setting_instruction setting v = do
    encoded ← encode (shape setting) v
    ok (elim (form setting) [
      | Form.prefixed ↦ record {
        name = setting_name setting;
        payload = esc_cr (encoded <> verb setting);
        parse_step = p.setting_echo (verb setting);
      }
      | Form.addressed addr ↦ record {
        name = setting_name setting;
        payload = esc_cr (addr <> "*" <> encoded <> verb setting);
        parse_step = p.addressed_echo (verb setting) addr;
      }
    ])

  -- The value is cut to 127 characters; the warning is left out.
  unfoldable pub register_instruction : Register → String → Instruction
  unfolding index register_name esc_cr shorten decimal
  register_instruction register v =
      let reg = "M" <> decimal (index register) in
      record {
        name = register_name register;
        payload = esc_cr (reg <> "*" <> shorten v 127 <> "RCDR");
        parse_step = p.settable_echo reg;
      }

  unfoldable pub command_instruction : Command → Instruction
  unfolding command_verb command_name esc_cr
  command_instruction c = record {
    name = command_name c;
    payload = esc_cr (command_verb c <> "RCDR");
    parse_step = p.command_echo (command_verb c);
  }

  unfoldable pub to_instruction : Intent → Result Instruction TranslateError
  unfolding command_instruction register_instruction setting_instruction
  to_instruction start_recording = ok (command_instruction Command.start)
  to_instruction stop_recording = ok (command_instruction Command.stop)
  to_instruction pause_recording = ok (command_instruction Command.pause)
  to_instruction (set_metadata field v) = elim (register_from_str field) [
    | some register ↦ ok (register_instruction register v)
    | none ↦ err (unknown_register field)
  ]
  to_instruction (set_setting field v) = elim (register_from_str field) [
    | some _ ↦ err (metadata_through_settings field)
    | none ↦ do
      setting ← ok_or (unknown_setting field) (setting_from_str field)
      map_err value (setting_instruction setting v)
  ]
