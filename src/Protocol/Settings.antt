-- ===== src/Protocol/Settings.antt =====
-- crates/sismatic-core/src/protocol/instructions/setting.rs: the catalog of the settings.
use sismatic.Common.{String, List, [], ◌∷◌, Option, find_first}
use sismatic.Protocol.Names.{spelled}

pub data Setting : Type 0 where
  unit_name timezone dhcp_mode snmp_state snmp_unit_location snmp_unit_contact : Setting
  telnet_port http_port stream1_name stream2_name stream3_name stream1_state : Setting
  stream2_state stream3_state rtmp_stream1_publish_url rtmp_stream1_backup_publish_url : Setting
  rtmp_stream2_publish_url rtmp_stream2_backup_publish_url rtmp_stream3_publish_url : Setting
  rtmp_stream3_backup_publish_url rtmp_stream1_state rtmp_stream2_state : Setting
  rtmp_stream3_state : Setting

-- `Setting::ALL`.
abbrev pub all_setting : List Setting
all_setting =
    Setting.unit_name ∷ Setting.timezone ∷ Setting.dhcp_mode ∷ Setting.snmp_state
    ∷ Setting.snmp_unit_location ∷ Setting.snmp_unit_contact ∷ Setting.telnet_port
    ∷ Setting.http_port ∷ Setting.stream1_name ∷ Setting.stream2_name ∷ Setting.stream3_name
    ∷ Setting.stream1_state ∷ Setting.stream2_state ∷ Setting.stream3_state
    ∷ Setting.rtmp_stream1_publish_url ∷ Setting.rtmp_stream1_backup_publish_url
    ∷ Setting.rtmp_stream2_publish_url ∷ Setting.rtmp_stream2_backup_publish_url
    ∷ Setting.rtmp_stream3_publish_url ∷ Setting.rtmp_stream3_backup_publish_url
    ∷ Setting.rtmp_stream1_state ∷ Setting.rtmp_stream2_state ∷ Setting.rtmp_stream3_state ∷ []

unfoldable pub setting_name : Setting → String
setting_name Setting.unit_name = "UNIT_NAME"
setting_name Setting.timezone = "TIMEZONE"
setting_name Setting.dhcp_mode = "DHCP_MODE"
setting_name Setting.snmp_state = "SNMP_STATE"
setting_name Setting.snmp_unit_location = "SNMP_UNIT_LOCATION"
setting_name Setting.snmp_unit_contact = "SNMP_UNIT_CONTACT"
setting_name Setting.telnet_port = "TELNET_PORT"
setting_name Setting.http_port = "HTTP_PORT"
setting_name Setting.stream1_name = "STREAM_1_NAME"
setting_name Setting.stream2_name = "STREAM_2_NAME"
setting_name Setting.stream3_name = "STREAM_3_NAME"
setting_name Setting.stream1_state = "STREAM_1_STATE"
setting_name Setting.stream2_state = "STREAM_2_STATE"
setting_name Setting.stream3_state = "STREAM_3_STATE"
setting_name Setting.rtmp_stream1_publish_url = "RTMP_1_URL"
setting_name Setting.rtmp_stream1_backup_publish_url = "RTMP_1_BACKUP_URL"
setting_name Setting.rtmp_stream2_publish_url = "RTMP_2_URL"
setting_name Setting.rtmp_stream2_backup_publish_url = "RTMP_2_BACKUP_URL"
setting_name Setting.rtmp_stream3_publish_url = "RTMP_3_URL"
setting_name Setting.rtmp_stream3_backup_publish_url = "RTMP_3_BACKUP_URL"
setting_name Setting.rtmp_stream1_state = "RTMP_1_STATE"
setting_name Setting.rtmp_stream2_state = "RTMP_2_STATE"
setting_name Setting.rtmp_stream3_state = "RTMP_3_STATE"

-- The canonical name and the aliases.
unfoldable pub setting_accepted : Setting → List String
setting_accepted Setting.unit_name = "UNIT_NAME" ∷ []
setting_accepted Setting.timezone = "TIMEZONE" ∷ []
setting_accepted Setting.dhcp_mode = "DHCP_MODE" ∷ []
setting_accepted Setting.snmp_state = "SNMP_STATE" ∷ []
setting_accepted Setting.snmp_unit_location = "SNMP_UNIT_LOCATION" ∷ []
setting_accepted Setting.snmp_unit_contact = "SNMP_UNIT_CONTACT" ∷ []
setting_accepted Setting.telnet_port = "TELNET_PORT" ∷ []
setting_accepted Setting.http_port = "HTTP_PORT" ∷ []
setting_accepted Setting.stream1_name = "STREAM_1_NAME" ∷ "STREAM_NAME_1" ∷ []
setting_accepted Setting.stream2_name = "STREAM_2_NAME" ∷ "STREAM_NAME_2" ∷ []
setting_accepted Setting.stream3_name = "STREAM_3_NAME" ∷ "STREAM_NAME_3" ∷ []
setting_accepted Setting.stream1_state =
    "STREAM_1_STATE" ∷ "STREAM_1_ENABLED" ∷ "STREAM_1_STATUS" ∷ []
setting_accepted Setting.stream2_state =
    "STREAM_2_STATE" ∷ "STREAM_2_ENABLED" ∷ "STREAM_2_STATUS" ∷ []
setting_accepted Setting.stream3_state =
    "STREAM_3_STATE" ∷ "STREAM_3_ENABLED" ∷ "STREAM_3_STATUS" ∷ []
setting_accepted Setting.rtmp_stream1_publish_url = "RTMP_1_URL" ∷ "RTMP_URL_1" ∷ []
setting_accepted Setting.rtmp_stream1_backup_publish_url =
    "RTMP_1_BACKUP_URL" ∷ "RTMP_BACKUP_URL_1" ∷ []
setting_accepted Setting.rtmp_stream2_publish_url = "RTMP_2_URL" ∷ "RTMP_URL_2" ∷ []
setting_accepted Setting.rtmp_stream2_backup_publish_url =
    "RTMP_2_BACKUP_URL" ∷ "RTMP_BACKUP_URL_2" ∷ []
setting_accepted Setting.rtmp_stream3_publish_url = "RTMP_3_URL" ∷ "RTMP_URL_3" ∷ []
setting_accepted Setting.rtmp_stream3_backup_publish_url =
    "RTMP_3_BACKUP_URL" ∷ "RTMP_BACKUP_URL_3" ∷ []
setting_accepted Setting.rtmp_stream1_state =
    "RTMP_1_STATE" ∷ "RTMP_1_ENABLED" ∷ "RTMP_1_STATUS" ∷ "RTMP_STREAM_1_STATE" ∷ []
setting_accepted Setting.rtmp_stream2_state =
    "RTMP_2_STATE" ∷ "RTMP_2_ENABLED" ∷ "RTMP_2_STATUS" ∷ "RTMP_STREAM_2_STATE" ∷ []
setting_accepted Setting.rtmp_stream3_state =
    "RTMP_3_STATE" ∷ "RTMP_3_ENABLED" ∷ "RTMP_3_STATUS" ∷ "RTMP_STREAM_3_STATE" ∷ []

-- `Setting::from_str`.
unfoldable pub setting_from_str : String → Option Setting
unfolding spelled find_first
setting_from_str s = spelled setting_accepted s all_setting
