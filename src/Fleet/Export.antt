-- ===== src/Fleet/Export.antt =====
-- crates/sismatic-server/src/fleet.rs: the devices document that is exported and persisted, before a
-- serde crate prints it.
use sismatic.Common.{
  ℕ, ◌/◌, ◌^◌, String, Bool, Option, none, some, List, [], ◌∷◌, map, ◌==◌, set_insert,
  if◌then◌else◌,
}
use sismatic.Common.Dict
use sismatic.Common.Dict.{Dict}
use sismatic.Api.{Barrier}
use sismatic.Fleet.Config.{DeviceConfig, GroupConfig}

pub data ExportFormat : Type 0 where
  toml yaml json : ExportFormat

pub record ExportQuery : Type 0 where
  pub format : ExportFormat
  pub promote_auto_disabled_fields_to_disabled_fields : Bool
  pub include_secrets : Bool

pub record ExportDevice : Type 0 where
  pub id : String
  pub host : String
  pub port : ℕ
  pub username : String
  pub password : Option String
  pub connect_secs : ℕ
  pub exchange_secs : ℕ
  pub eager : Bool
  pub sis_keepalive_secs : ℕ
  pub eager_retry_secs : ℕ
  pub cold_backoff_secs : ℕ
  pub disabled_fields : List String
  pub auto_disable_after : ℕ
  pub self_heal_secs : ℕ

pub record ExportGroup : Type 0 where
  pub id : String
  pub devices : List String
  pub barrier_timeout_secs : ℕ
  pub barrier : String

-- `defaults` is always empty, and is left out.
pub record ExportDocument : Type 0 where
  pub devices : List ExportDevice
  pub groups : List ExportGroup

-- `Duration::as_secs`.
abbrev pub as_secs : ℕ → ℕ
as_secs nanos = nanos / 10 ^ 9

-- `value.map_or(0, |d| d.as_secs())`.
abbrev pub secs_or_zero : Option ℕ → ℕ
secs_or_zero none = 0
secs_or_zero (some nanos) = as_secs nanos

-- `BTreeSet::extend`.
unfoldable pub extend : List String → List String → List String
extend set [] = set
extend set (x ∷ xs) = extend (set_insert x set) xs

unfoldable pub format_of : Option String → ExportFormat
format_of (some extension) =
    if extension == "json"
    then json
    else if extension == "yaml"
    then yaml
    else if extension == "yml"
    then yaml
    else toml
format_of none = toml

abbrev pub barrier_name : Barrier → String
barrier_name Barrier.fail_batch = "fail_batch"
barrier_name Barrier.dispatch_ready = "dispatch_ready"

unfoldable pub export_device : Dict (List String) → ExportQuery → DeviceConfig → ExportDevice
unfolding extend
export_device promoted query device = record {
  id = device.id;
  host = device.host;
  port = device.port;
  username = device.username;
  password = if query.include_secrets then some device.password else none;
  connect_secs = as_secs device.connect_timeout;
  exchange_secs = as_secs device.exchange_timeout;
  eager = device.eager;
  sis_keepalive_secs = secs_or_zero device.sis_keepalive;
  eager_retry_secs = secs_or_zero device.eager_retry;
  cold_backoff_secs = secs_or_zero device.cold_backoff;
  disabled_fields =
      if query.promote_auto_disabled_fields_to_disabled_fields
      then elim (Dict.get device.id promoted) [
        | some inferred ↦ extend device.disabled_fields inferred
        | none ↦ device.disabled_fields
      ]
      else device.disabled_fields;
  auto_disable_after = device.auto_disable_after;
  self_heal_secs = secs_or_zero device.self_heal;
}

unfoldable pub export_group : GroupConfig → ExportGroup
export_group group = record {
  id = group.id;
  devices = group.device_ids;
  barrier_timeout_secs = as_secs group.barrier_timeout;
  barrier = barrier_name group.barrier;
}

unfoldable pub export_document :
    List DeviceConfig → List GroupConfig → Dict (List String) → ExportQuery → ExportDocument
unfolding export_device export_group
export_document fleet groups promoted query = record {
  devices = map (export_device promoted query) fleet;
  groups = map export_group groups;
}
