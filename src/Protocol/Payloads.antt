-- ===== src/Protocol/Payloads.antt =====
-- crates/sismatic-core/src/protocol/instructions: the instruction of each query, setting, register and
-- command. The reply parsers are combinators of the winnow crate, and are the argument `Parsers`.
use Prim.Native.String.{◌++◌ as ◌<>◌}
use sismatic.Common.{ℕ, zero, suc, String, List}
use sismatic.Protocol.Replies.{Step}
use sismatic.Protocol.Queries.{Query}
use sismatic.Protocol.Settings.{Setting}
use sismatic.Protocol.Registers.{Register}
use sismatic.Protocol.Commands.{Command}
use sismatic.Protocol.Encoding.{Shape, Form}

-- How a reply to a query is read.
pub data QueryParser : Type 0 where
  plain_text boolean_flag parse_state plain_port plain_number mac_address active_alarms :
      QueryParser

-- `parser_of` each of the parsers, on the text so far.
pub record Parsers : Type 0 where
  pub of_query : QueryParser → List ℕ → Step
  pub command_echo : String → List ℕ → Step
  pub settable_echo : String → List ℕ → Step
  pub setting_echo : String → List ℕ → Step
  pub addressed_echo : String → String → List ℕ → Step

abbrev esc : String
esc = "\u{1b}"

abbrev cr : String
cr = "\r"

unfoldable pub esc_cr : String → String
esc_cr verb = esc <> verb <> cr

unfoldable pub esc_rcdr : String → String
esc_rcdr verb = esc <> verb <> "RCDR" <> cr

-- `shorten`: so many characters at most.
unfoldable pub shorten : String → ℕ → String
shorten s zero = ""
shorten String.[] (suc n) = String.[]
shorten (String.◌∷◌ c s) (suc n) = String.◌∷◌ c (shorten s n)

unfoldable pub query_payload : Query → String × QueryParser
unfolding esc_cr esc_rcdr
query_payload Query.stream1_name = (esc_cr "N1STRC", QueryParser.plain_text)
query_payload Query.stream2_name = (esc_cr "N2STRC", QueryParser.plain_text)
query_payload Query.stream3_name = (esc_cr "N3STRC", QueryParser.plain_text)
query_payload Query.stream1_state = (esc_cr "1STRC", QueryParser.boolean_flag)
query_payload Query.stream2_state = (esc_cr "2STRC", QueryParser.boolean_flag)
query_payload Query.stream3_state = (esc_cr "3STRC", QueryParser.boolean_flag)
query_payload Query.rtmp_stream1_live_state = (esc_cr "S1*1RTMP", QueryParser.boolean_flag)
query_payload Query.rtmp_stream2_live_state = (esc_cr "S1*2RTMP", QueryParser.boolean_flag)
query_payload Query.rtmp_stream3_live_state = (esc_cr "S1*3RTMP", QueryParser.boolean_flag)
query_payload Query.rtmp_backup_stream1_live_state = (esc_cr "S2*1RTMP", QueryParser.boolean_flag)
query_payload Query.rtmp_backup_stream2_live_state = (esc_cr "S2*2RTMP", QueryParser.boolean_flag)
query_payload Query.rtmp_backup_stream3_live_state = (esc_cr "S2*3RTMP", QueryParser.boolean_flag)
query_payload Query.firmware = ("Q", QueryParser.plain_text)
query_payload Query.running_state = (esc_rcdr "Y", QueryParser.parse_state)
query_payload Query.unit_name = (esc_cr "CN", QueryParser.plain_text)
query_payload Query.telnet_port = (esc_cr "MT", QueryParser.plain_port)
query_payload Query.ssh_port = (esc_cr "BPMAP", QueryParser.plain_port)
query_payload Query.http_port = (esc_cr "MH", QueryParser.plain_port)
query_payload Query.snmp_port = (esc_cr "APMAP", QueryParser.plain_port)
query_payload Query.https_port = (esc_cr "SPMAP", QueryParser.plain_port)
query_payload Query.snmp_unit_location = (esc_cr "LSNMP", QueryParser.plain_text)
query_payload Query.snmp_unit_contact = (esc_cr "CSNMP", QueryParser.plain_text)
query_payload Query.snmp_private_community_string = (esc_cr "XSNMP", QueryParser.plain_text)
query_payload Query.snmp_public_community_string = (esc_cr "PSNMP", QueryParser.plain_text)
query_payload Query.snmp_state = (esc_cr "ESNMP", QueryParser.boolean_flag)
query_payload Query.dhcp_mode = (esc_cr "DH", QueryParser.boolean_flag)
query_payload Query.timezone = (esc_cr "TZON", QueryParser.plain_text)
query_payload Query.mac_address = (esc_cr "CH", QueryParser.mac_address)
query_payload Query.port_timeout = (esc_cr "0TC", QueryParser.plain_number)
query_payload Query.global_port_timeout = (esc_cr "1TC", QueryParser.plain_number)
query_payload Query.model_name = ("1I", QueryParser.plain_text)
query_payload Query.model_description = ("2I", QueryParser.plain_text)
query_payload Query.active_alarms = ("39I", QueryParser.active_alarms)
query_payload Query.part_number = ("N", QueryParser.plain_text)
query_payload Query.contributor = (esc_rcdr "M0", QueryParser.plain_text)
query_payload Query.course = (esc_rcdr "M16", QueryParser.plain_text)
query_payload Query.coverage = (esc_rcdr "M1", QueryParser.plain_text)
query_payload Query.date = (esc_rcdr "M3", QueryParser.plain_text)
query_payload Query.description = (esc_rcdr "M4", QueryParser.plain_text)
query_payload Query.format = (esc_rcdr "M5", QueryParser.plain_text)
query_payload Query.identifier = (esc_rcdr "M6", QueryParser.plain_text)
query_payload Query.language = (esc_rcdr "M7", QueryParser.plain_text)
query_payload Query.presenter = (esc_rcdr "M2", QueryParser.plain_text)
query_payload Query.publisher = (esc_rcdr "M8", QueryParser.plain_text)
query_payload Query.relation = (esc_rcdr "M9", QueryParser.plain_text)
query_payload Query.rights = (esc_rcdr "M10", QueryParser.plain_text)
query_payload Query.source = (esc_rcdr "M11", QueryParser.plain_text)
query_payload Query.subject = (esc_rcdr "M12", QueryParser.plain_text)
query_payload Query.system_name = (esc_rcdr "M15", QueryParser.plain_text)
query_payload Query.title = (esc_rcdr "M13", QueryParser.plain_text)
query_payload Query.type = (esc_rcdr "M14", QueryParser.plain_text)

unfoldable pub shape : Setting → Shape
shape Setting.unit_name = Shape.text 63
shape Setting.timezone = Shape.text 64
shape Setting.dhcp_mode = Shape.flag
shape Setting.snmp_state = Shape.flag
shape Setting.snmp_unit_location = Shape.text 64
shape Setting.snmp_unit_contact = Shape.text 64
shape Setting.telnet_port = Shape.port
shape Setting.http_port = Shape.port
shape Setting.stream1_name = Shape.token 127
shape Setting.stream2_name = Shape.token 127
shape Setting.stream3_name = Shape.token 127
shape Setting.stream1_state = Shape.flag
shape Setting.stream2_state = Shape.flag
shape Setting.stream3_state = Shape.flag
shape Setting.rtmp_stream1_publish_url = Shape.url 127
shape Setting.rtmp_stream1_backup_publish_url = Shape.url 127
shape Setting.rtmp_stream2_publish_url = Shape.url 127
shape Setting.rtmp_stream2_backup_publish_url = Shape.url 127
shape Setting.rtmp_stream3_publish_url = Shape.url 127
shape Setting.rtmp_stream3_backup_publish_url = Shape.url 127
shape Setting.rtmp_stream1_state = Shape.flag
shape Setting.rtmp_stream2_state = Shape.flag
shape Setting.rtmp_stream3_state = Shape.flag

unfoldable pub form : Setting → Form
form Setting.unit_name = Form.prefixed
form Setting.timezone = Form.prefixed
form Setting.dhcp_mode = Form.prefixed
form Setting.snmp_state = Form.prefixed
form Setting.snmp_unit_location = Form.prefixed
form Setting.snmp_unit_contact = Form.prefixed
form Setting.telnet_port = Form.prefixed
form Setting.http_port = Form.prefixed
form Setting.stream1_name = Form.addressed "N1"
form Setting.stream2_name = Form.addressed "N2"
form Setting.stream3_name = Form.addressed "N3"
form Setting.stream1_state = Form.addressed "1"
form Setting.stream2_state = Form.addressed "2"
form Setting.stream3_state = Form.addressed "3"
form Setting.rtmp_stream1_publish_url = Form.addressed "U1*1"
form Setting.rtmp_stream1_backup_publish_url = Form.addressed "U2*1"
form Setting.rtmp_stream2_publish_url = Form.addressed "U1*2"
form Setting.rtmp_stream2_backup_publish_url = Form.addressed "U2*2"
form Setting.rtmp_stream3_publish_url = Form.addressed "U1*3"
form Setting.rtmp_stream3_backup_publish_url = Form.addressed "U2*3"
form Setting.rtmp_stream1_state = Form.addressed "E1"
form Setting.rtmp_stream2_state = Form.addressed "E2"
form Setting.rtmp_stream3_state = Form.addressed "E3"

unfoldable pub verb : Setting → String
verb Setting.unit_name = "CN"
verb Setting.timezone = "TZON"
verb Setting.dhcp_mode = "DH"
verb Setting.snmp_state = "ESNMP"
verb Setting.snmp_unit_location = "LSNMP"
verb Setting.snmp_unit_contact = "CSNMP"
verb Setting.telnet_port = "MT"
verb Setting.http_port = "MH"
verb Setting.stream1_name = "STRC"
verb Setting.stream2_name = "STRC"
verb Setting.stream3_name = "STRC"
verb Setting.stream1_state = "STRC"
verb Setting.stream2_state = "STRC"
verb Setting.stream3_state = "STRC"
verb Setting.rtmp_stream1_publish_url = "RTMP"
verb Setting.rtmp_stream1_backup_publish_url = "RTMP"
verb Setting.rtmp_stream2_publish_url = "RTMP"
verb Setting.rtmp_stream2_backup_publish_url = "RTMP"
verb Setting.rtmp_stream3_publish_url = "RTMP"
verb Setting.rtmp_stream3_backup_publish_url = "RTMP"
verb Setting.rtmp_stream1_state = "RTMP"
verb Setting.rtmp_stream2_state = "RTMP"
verb Setting.rtmp_stream3_state = "RTMP"

unfoldable pub index : Register → ℕ
index Register.contributor = 0
index Register.coverage = 1
index Register.presenter = 2
index Register.description = 4
index Register.format = 5
index Register.language = 7
index Register.publisher = 8
index Register.relation = 9
index Register.rights = 10
index Register.source = 11
index Register.subject = 12
index Register.title = 13
index Register.type = 14
index Register.system_name = 15
index Register.course = 16

unfoldable pub command_verb : Command → String
command_verb Command.start = "Y1"
command_verb Command.stop = "Y0"
command_verb Command.pause = "Y2"
