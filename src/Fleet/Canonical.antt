-- ===== src/Fleet/Canonical.antt =====
-- The names that the catalogs give are their own canonical form.
use sismatic.Common.{◌≡◌, refl, subst, arith, some, String, Option-cases, inl, inr}
use sismatic.Protocol.Queries.{Query, query_name, query_from_str, query_accepted}
use sismatic.Protocol.Settings.{Setting, setting_name, setting_from_str, setting_accepted}
use sismatic.Protocol.Registers.{Register, register_name, register_from_str, register_accepted}
use sismatic.Fleet.Resolve.{canonical_field}

query_from_str-query_name : (q : Query) → query_from_str (query_name q) ≡ some q
unfolding query_from_str query_name query_accepted
query_from_str-query_name Query.stream1_name = refl
query_from_str-query_name Query.stream2_name = refl
query_from_str-query_name Query.stream3_name = refl
query_from_str-query_name Query.firmware = refl
query_from_str-query_name Query.running_state = refl
query_from_str-query_name Query.unit_name = refl
query_from_str-query_name Query.telnet_port = refl
query_from_str-query_name Query.ssh_port = refl
query_from_str-query_name Query.http_port = refl
query_from_str-query_name Query.snmp_port = refl
query_from_str-query_name Query.https_port = refl
query_from_str-query_name Query.snmp_unit_location = refl
query_from_str-query_name Query.snmp_unit_contact = refl
query_from_str-query_name Query.snmp_private_community_string = refl
query_from_str-query_name Query.snmp_public_community_string = refl
query_from_str-query_name Query.snmp_state = refl
query_from_str-query_name Query.dhcp_mode = refl
query_from_str-query_name Query.timezone = refl
query_from_str-query_name Query.mac_address = refl
query_from_str-query_name Query.port_timeout = refl
query_from_str-query_name Query.global_port_timeout = refl
query_from_str-query_name Query.model_name = refl
query_from_str-query_name Query.model_description = refl
query_from_str-query_name Query.active_alarms = refl
query_from_str-query_name Query.part_number = refl
query_from_str-query_name Query.contributor = refl
query_from_str-query_name Query.course = refl
query_from_str-query_name Query.coverage = refl
query_from_str-query_name Query.date = refl
query_from_str-query_name Query.description = refl
query_from_str-query_name Query.format = refl
query_from_str-query_name Query.identifier = refl
query_from_str-query_name Query.language = refl
query_from_str-query_name Query.presenter = refl
query_from_str-query_name Query.publisher = refl
query_from_str-query_name Query.relation = refl
query_from_str-query_name Query.rights = refl
query_from_str-query_name Query.source = refl
query_from_str-query_name Query.subject = refl
query_from_str-query_name Query.system_name = refl
query_from_str-query_name Query.title = refl
query_from_str-query_name Query.type = refl
query_from_str-query_name Query.stream1_state = refl
query_from_str-query_name Query.stream2_state = refl
query_from_str-query_name Query.stream3_state = refl
query_from_str-query_name Query.rtmp_stream1_live_state = refl
query_from_str-query_name Query.rtmp_stream2_live_state = refl
query_from_str-query_name Query.rtmp_stream3_live_state = refl
query_from_str-query_name Query.rtmp_backup_stream1_live_state = refl
query_from_str-query_name Query.rtmp_backup_stream2_live_state = refl
query_from_str-query_name Query.rtmp_backup_stream3_live_state = refl

canonical_field-setting_name :
    (s : Setting) → canonical_field (setting_name s) ≡ some (setting_name s)
unfolding canonical_field setting_name setting_accepted query_name query_accepted setting_from_str
    query_from_str
canonical_field-setting_name Setting.unit_name = refl
canonical_field-setting_name Setting.timezone = refl
canonical_field-setting_name Setting.dhcp_mode = refl
canonical_field-setting_name Setting.snmp_state = refl
canonical_field-setting_name Setting.snmp_unit_location = refl
canonical_field-setting_name Setting.snmp_unit_contact = refl
canonical_field-setting_name Setting.telnet_port = refl
canonical_field-setting_name Setting.http_port = refl
canonical_field-setting_name Setting.stream1_name = refl
canonical_field-setting_name Setting.stream2_name = refl
canonical_field-setting_name Setting.stream3_name = refl
canonical_field-setting_name Setting.stream1_state = refl
canonical_field-setting_name Setting.stream2_state = refl
canonical_field-setting_name Setting.stream3_state = refl
canonical_field-setting_name Setting.rtmp_stream1_publish_url = refl
canonical_field-setting_name Setting.rtmp_stream1_backup_publish_url = refl
canonical_field-setting_name Setting.rtmp_stream2_publish_url = refl
canonical_field-setting_name Setting.rtmp_stream2_backup_publish_url = refl
canonical_field-setting_name Setting.rtmp_stream3_publish_url = refl
canonical_field-setting_name Setting.rtmp_stream3_backup_publish_url = refl
canonical_field-setting_name Setting.rtmp_stream1_state = refl
canonical_field-setting_name Setting.rtmp_stream2_state = refl
canonical_field-setting_name Setting.rtmp_stream3_state = refl

canonical_field-register_name :
    (r : Register) → canonical_field (register_name r) ≡ some (register_name r)
unfolding canonical_field register_name register_accepted query_name query_accepted setting_accepted
    setting_name register_from_str setting_from_str query_from_str
canonical_field-register_name Register.contributor = refl
canonical_field-register_name Register.course = refl
canonical_field-register_name Register.coverage = refl
canonical_field-register_name Register.description = refl
canonical_field-register_name Register.format = refl
canonical_field-register_name Register.language = refl
canonical_field-register_name Register.presenter = refl
canonical_field-register_name Register.publisher = refl
canonical_field-register_name Register.relation = refl
canonical_field-register_name Register.rights = refl
canonical_field-register_name Register.source = refl
canonical_field-register_name Register.subject = refl
canonical_field-register_name Register.system_name = refl
canonical_field-register_name Register.title = refl
canonical_field-register_name Register.type = refl

canonical_field-query_name : (q : Query) → canonical_field (query_name q) ≡ some (query_name q)
unfolding canonical_field
canonical_field-query_name q = ground (arith, query_from_str-query_name q)

-- What is canonical stays as it is.
pub canonical_field_idem :
    (written name : String) → canonical_field written ≡ some name → canonical_field name ≡ some name
unfolding canonical_field
canonical_field_idem written name e = elim (Option-cases (query_from_str written)) [
  | inr (q, found) ↦ at_name (query_name q) (ground (arith, found)) (canonical_field-query_name q)
  | inl no_query ↦ elim (Option-cases (setting_from_str written)) [
    | inr (s, found) ↦
        at_name (setting_name s) (ground (arith, found)) (canonical_field-setting_name s)
    | inl no_setting ↦ elim (Option-cases (register_from_str written)) [
      | inr (r, found) ↦
          at_name (register_name r) (ground (arith, found)) (canonical_field-register_name r)
      | inl no_register ↦ absurd (ground arith)
    ]
  ]
]
  where
    at_name :
        (n : String) → n ≡ name → canonical_field n ≡ some n → canonical_field name ≡ some name
    at_name n same fixed = subst (λ m. canonical_field m ≡ some m) same fixed
