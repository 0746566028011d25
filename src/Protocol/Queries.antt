-- ===== src/Protocol/Queries.antt =====
-- crates/sismatic-core/src/protocol/instructions/query.rs: the catalog of the queries.
use sismatic.Common.{String, List, [], ◌∷◌, Option, find_first}
use sismatic.Protocol.Names.{spelled}

pub data Query : Type 0 where
  stream1_name stream2_name stream3_name firmware running_state unit_name telnet_port : Query
  ssh_port http_port snmp_port https_port snmp_unit_location snmp_unit_contact : Query
  snmp_private_community_string snmp_public_community_string snmp_state dhcp_mode : Query
  timezone mac_address port_timeout global_port_timeout model_name model_description : Query
  active_alarms part_number contributor course coverage date description format : Query
  identifier language presenter publisher relation rights source subject system_name : Query
  title type stream1_state stream2_state stream3_state rtmp_stream1_live_state : Query
  rtmp_stream2_live_state rtmp_stream3_live_state rtmp_backup_stream1_live_state : Query
  rtmp_backup_stream2_live_state rtmp_backup_stream3_live_state : Query

-- `Query::ALL`.
abbrev pub all_query : List Query
all_query =
    Query.stream1_name ∷ Query.stream2_name ∷ Query.stream3_name ∷ Query.firmware
    ∷ Query.running_state ∷ Query.unit_name ∷ Query.telnet_port ∷ Query.ssh_port ∷ Query.http_port
    ∷ Query.snmp_port ∷ Query.https_port ∷ Query.snmp_unit_location ∷ Query.snmp_unit_contact
    ∷ Query.snmp_private_community_string ∷ Query.snmp_public_community_string ∷ Query.snmp_state
    ∷ Query.dhcp_mode ∷ Query.timezone ∷ Query.mac_address ∷ Query.port_timeout
    ∷ Query.global_port_timeout ∷ Query.model_name ∷ Query.model_description ∷ Query.active_alarms
    ∷ Query.part_number ∷ Query.contributor ∷ Query.course ∷ Query.coverage ∷ Query.date
    ∷ Query.description ∷ Query.format ∷ Query.identifier ∷ Query.language ∷ Query.presenter
    ∷ Query.publisher ∷ Query.relation ∷ Query.rights ∷ Query.source ∷ Query.subject
    ∷ Query.system_name ∷ Query.title ∷ Query.type ∷ Query.stream1_state ∷ Query.stream2_state
    ∷ Query.stream3_state ∷ Query.rtmp_stream1_live_state ∷ Query.rtmp_stream2_live_state
    ∷ Query.rtmp_stream3_live_state ∷ Query.rtmp_backup_stream1_live_state
    ∷ Query.rtmp_backup_stream2_live_state ∷ Query.rtmp_backup_stream3_live_state ∷ []

unfoldable pub query_name : Query → String
query_name Query.stream1_name = "STREAM_1_NAME"
query_name Query.stream2_name = "STREAM_2_NAME"
query_name Query.stream3_name = "STREAM_3_NAME"
query_name Query.firmware = "FIRMWARE"
query_name Query.running_state = "RUNNING_STATE"
query_name Query.unit_name = "UNIT_NAME"
query_name Query.telnet_port = "TELNET_PORT"
query_name Query.ssh_port = "SSH_PORT"
query_name Query.http_port = "HTTP_PORT"
query_name Query.snmp_port = "SNMP_PORT"
query_name Query.https_port = "HTTPS_PORT"
query_name Query.snmp_unit_location = "SNMP_UNIT_LOCATION"
query_name Query.snmp_unit_contact = "SNMP_UNIT_CONTACT"
query_name Query.snmp_private_community_string = "SNMP_PRIVATE_COMMUNITY_STRING"
query_name Query.snmp_public_community_string = "SNMP_PUBLIC_COMMUNITY_STRING"
query_name Query.snmp_state = "SNMP_STATE"
query_name Query.dhcp_mode = "DHCP_MODE"
query_name Query.timezone = "TIMEZONE"
query_name Query.mac_address = "MAC_ADDRESS"
query_name Query.port_timeout = "PORT_TIMEOUT"
query_name Query.global_port_timeout = "GLOBAL_PORT_TIMEOUT"
query_name Query.model_name = "MODEL_NAME"
query_name Query.model_description = "MODEL_DESCRIPTION"
query_name Query.active_alarms = "ACTIVE_ALARMS"
query_name Query.part_number = "PART_NUMBER"
query_name Query.contributor = "CONTRIBUTOR"
query_name Query.course = "COURSE"
query_name Query.coverage = "COVERAGE"
query_name Query.date = "DATE"
query_name Query.description = "DESCRIPTION"
query_name Query.format = "FORMAT"
query_name Query.identifier = "IDENTIFIER"
query_name Query.language = "LANGUAGE"
query_name Query.presenter = "PRESENTER"
query_name Query.publisher = "PUBLISHER"
query_name Query.relation = "RELATION"
query_name Query.rights = "RIGHTS"
query_name Query.source = "SOURCE"
query_name Query.subject = "SUBJECT"
query_name Query.system_name = "SYSTEMNAME"
query_name Query.title = "TITLE"
query_name Query.type = "TYPE"
query_name Query.stream1_state = "STREAM_1_STATE"
query_name Query.stream2_state = "STREAM_2_STATE"
query_name Query.stream3_state = "STREAM_3_STATE"
query_name Query.rtmp_stream1_live_state = "RTMP_STREAM_1_LIVE_STATE"
query_name Query.rtmp_stream2_live_state = "RTMP_STREAM_2_LIVE_STATE"
query_name Query.rtmp_stream3_live_state = "RTMP_STREAM_3_LIVE_STATE"
query_name Query.rtmp_backup_stream1_live_state = "RTMP_BACKUP_STREAM_1_LIVE_STATE"
query_name Query.rtmp_backup_stream2_live_state = "RTMP_BACKUP_STREAM_2_LIVE_STATE"
query_name Query.rtmp_backup_stream3_live_state = "RTMP_BACKUP_STREAM_3_LIVE_STATE"

-- The canonical name and the aliases.
unfoldable pub query_accepted : Query → List String
query_accepted Query.stream1_name = "STREAM_1_NAME" ∷ "STREAM_NAME_1" ∷ []
query_accepted Query.stream2_name = "STREAM_2_NAME" ∷ "STREAM_NAME_2" ∷ []
query_accepted Query.stream3_name = "STREAM_3_NAME" ∷ "STREAM_NAME_3" ∷ []
query_accepted Query.firmware = "FIRMWARE" ∷ []
query_accepted Query.running_state = "RUNNING_STATE" ∷ []
query_accepted Query.unit_name = "UNIT_NAME" ∷ []
query_accepted Query.telnet_port = "TELNET_PORT" ∷ []
query_accepted Query.ssh_port = "SSH_PORT" ∷ []
query_accepted Query.http_port = "HTTP_PORT" ∷ []
query_accepted Query.snmp_port = "SNMP_PORT" ∷ []
query_accepted Query.https_port = "HTTPS_PORT" ∷ []
query_accepted Query.snmp_unit_location = "SNMP_UNIT_LOCATION" ∷ []
query_accepted Query.snmp_unit_contact = "SNMP_UNIT_CONTACT" ∷ []
query_accepted Query.snmp_private_community_string = "SNMP_PRIVATE_COMMUNITY_STRING" ∷ []
query_accepted Query.snmp_public_community_string = "SNMP_PUBLIC_COMMUNITY_STRING" ∷ []
query_accepted Query.snmp_state = "SNMP_STATE" ∷ []
query_accepted Query.dhcp_mode = "DHCP_MODE" ∷ []
query_accepted Query.timezone = "TIMEZONE" ∷ []
query_accepted Query.mac_address = "MAC_ADDRESS" ∷ []
query_accepted Query.port_timeout = "PORT_TIMEOUT" ∷ []
query_accepted Query.global_port_timeout = "GLOBAL_PORT_TIMEOUT" ∷ []
query_accepted Query.model_name = "MODEL_NAME" ∷ []
query_accepted Query.model_description = "MODEL_DESCRIPTION" ∷ []
query_accepted Query.active_alarms = "ACTIVE_ALARMS" ∷ []
query_accepted Query.part_number = "PART_NUMBER" ∷ []
query_accepted Query.contributor = "CONTRIBUTOR" ∷ []
query_accepted Query.course = "COURSE" ∷ []
query_accepted Query.coverage = "COVERAGE" ∷ []
query_accepted Query.date = "DATE" ∷ []
query_accepted Query.description = "DESCRIPTION" ∷ []
query_accepted Query.format = "FORMAT" ∷ []
query_accepted Query.identifier = "IDENTIFIER" ∷ []
query_accepted Query.language = "LANGUAGE" ∷ []
query_accepted Query.presenter = "PRESENTER" ∷ []
query_accepted Query.publisher = "PUBLISHER" ∷ []
query_accepted Query.relation = "RELATION" ∷ []
query_accepted Query.rights = "RIGHTS" ∷ []
query_accepted Query.source = "SOURCE" ∷ []
query_accepted Query.subject = "SUBJECT" ∷ []
query_accepted Query.system_name = "SYSTEMNAME" ∷ []
query_accepted Query.title = "TITLE" ∷ []
query_accepted Query.type = "TYPE" ∷ []
query_accepted Query.stream1_state = "STREAM_1_STATE" ∷ "STREAM_1_ENABLED" ∷ "STREAM_1_STATUS" ∷ []
query_accepted Query.stream2_state = "STREAM_2_STATE" ∷ "STREAM_2_ENABLED" ∷ "STREAM_2_STATUS" ∷ []
query_accepted Query.stream3_state = "STREAM_3_STATE" ∷ "STREAM_3_ENABLED" ∷ "STREAM_3_STATUS" ∷ []
query_accepted Query.rtmp_stream1_live_state =
    "RTMP_STREAM_1_LIVE_STATE" ∷ "RTMP_STREAM_LIVE_STATE_1" ∷ "RTMP_1_LIVE_STATE" ∷ []
query_accepted Query.rtmp_stream2_live_state =
    "RTMP_STREAM_2_LIVE_STATE" ∷ "RTMP_STREAM_LIVE_STATE_2" ∷ "RTMP_2_LIVE_STATE" ∷ []
query_accepted Query.rtmp_stream3_live_state =
    "RTMP_STREAM_3_LIVE_STATE" ∷ "RTMP_STREAM_LIVE_STATE_3" ∷ "RTMP_3_LIVE_STATE" ∷ []
query_accepted Query.rtmp_backup_stream1_live_state =
    "RTMP_BACKUP_STREAM_1_LIVE_STATE" ∷ "RTMP_BACKUP_STREAM_LIVE_STATE_1"
    ∷ "RTMP_1_BACKUP_LIVE_STATE" ∷ []
query_accepted Query.rtmp_backup_stream2_live_state =
    "RTMP_BACKUP_STREAM_2_LIVE_STATE" ∷ "RTMP_BACKUP_STREAM_LIVE_STATE_2"
    ∷ "RTMP_2_BACKUP_LIVE_STATE" ∷ []
query_accepted Query.rtmp_backup_stream3_live_state =
    "RTMP_BACKUP_STREAM_3_LIVE_STATE" ∷ "RTMP_BACKUP_STREAM_LIVE_STATE_3"
    ∷ "RTMP_3_BACKUP_LIVE_STATE" ∷ []

-- `Query::from_str`.
unfoldable pub query_from_str : String → Option Query
unfolding spelled find_first
query_from_str s = spelled query_accepted s all_query
