-- ===== src/Tests/Protocol.antt =====
-- A publish target on its way to the wire, and a port that is read back.
use sismatic.Common.{
  String, ◌≡◌, refl, ok, map_chars, find_char, strip_prefix, true, decimal, arith,
}
use Prim.Native.String.{◌++◌ as ◌<>◌}
use sismatic.Protocol.Settings.{Setting}
use sismatic.Protocol.Replies.{Step, Instruction}
use sismatic.Api.{text, flag, port}
use sismatic.Store.Expectation.{satisfies}
use sismatic.Store.Spelling.{is_written, digit_of, satisfies-encode}
use sismatic.Protocol.Encoding.{Shape, encode, encode_url, encode_token, encode_text, is_rtmp_url}
use sismatic.Protocol.Payloads.{Parsers, shape, form, verb, esc_cr}
use sismatic.Protocol.Instructions.{setting_instruction}
use sismatic.Protocol.Framing.{IsWhole, setting_instruction-IsWhole}

-- No reply ever ends.
abbrev pub mute : Parsers
mute = record {
  of_query = λ q reply. Step.need_more;
  command_echo = λ v reply. Step.need_more;
  settable_echo = λ v reply. Step.need_more;
  setting_echo = λ v reply. Step.need_more;
  addressed_echo = λ v addr reply. Step.need_more;
}

abbrev publish_url : String
publish_url = "rtmp://a/b"

abbrev published : Instruction
published = record {
  name = "RTMP_1_URL";
  payload = esc_cr ("U1*1*" <> publish_url <> "RTMP");
  parse_step = mute.addressed_echo "RTMP" "U1*1";
}

publish_url_accepted :
    setting_instruction mute Setting.rtmp_stream1_publish_url publish_url ≡ ok published
unfolding setting_instruction encode encode_url encode_token encode_text is_rtmp_url find_char
    map_chars strip_prefix shape form verb esc_cr
publish_url_accepted = refl

setting_instruction-IsWhole_example :
    (written : String) × IsWhole written
    × (encode (shape Setting.rtmp_stream1_publish_url) publish_url ≡ ok written)
    × (published.payload
        ≡ esc_cr ("U1*1" <> "*" <> written <> verb Setting.rtmp_stream1_publish_url))
setting_instruction-IsWhole_example =
    setting_instruction-IsWhole mute Setting.rtmp_stream1_publish_url publish_url "U1*1" published
      (unfold form in refl) publish_url_accepted

satisfies-encode_example :
    (satisfies (text " 80 ") (flag true) ≡ is_written (encode Shape.flag " 80 ") (digit_of true))
    × (satisfies (text " 80 ") (port 80) ≡ is_written (encode Shape.port " 80 ") (decimal 80))
satisfies-encode_example = satisfies-encode " 80 " true 80 (ground arith)
