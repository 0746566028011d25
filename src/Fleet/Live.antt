-- ===== src/Fleet/Live.antt =====
-- crates/sismatic-server/src/fleet.rs: `LiveFleet`. A call holds the document's mutex while it amends,
-- and is one function on the state. What is outside the program is the argument `World`: the uuid
-- crate, the serde printers, the file system's answers, and the loading of a devices file.
use Prim.Native.String.{◌++◌ as ◌<>◌}
use sismatic.Common.{
  ℕ, ◌+◌, ◌%◌, ◌^◌, String, Bool, true, false, Option, none, some, List, map, Result, ok, err,
  ◌>>=◌, map_err,
}
use sismatic.Common.Dict
use sismatic.Common.Dict.{Dict}
use sismatic.Outbox.State.{Outbox}
use sismatic.Reads.State.{MemoryStore}
use sismatic.Catalog.Listing.{MemoryCatalog, replace}
use sismatic.Fleet.Config.{RawDevice, RawConfig, DeviceConfig, Resolved, ConfigError}
use sismatic.Fleet.Resolve.{resolve_config}
use sismatic.Fleet.Registry.{Registry, RegistryChange, apply}
use sismatic.Fleet.Export.{
  ExportFormat, ExportQuery, ExportDocument, as_secs, secs_or_zero, format_of, export_document,
}
use sismatic.Fleet.Summaries.{
  DeviceSummary, GroupSummary, summarize, summarize_group, device_summary, group_summary,
}

pub record World : Type 0 where
  pub new_v5 : List ℕ → List ℕ → String
  pub print : ExportFormat → ExportDocument → Result String String
  pub write_error : String → String → Option String
  pub extension : String → Option String
  pub load_raw : String → Result RawConfig ConfigError

pub data InventoryRefusal : Type 0 where
  malformed duplicate unknown blocked source : String → InventoryRefusal

-- `disk` holds the files that the program has written.
pub record LiveFleet : Type 0 where
  pub registry : Registry
  pub generation : ℕ  -- u64
  pub document : RawConfig
  pub catalog : MemoryCatalog DeviceSummary GroupSummary
  pub outbox : Outbox
  pub store : MemoryStore
  pub cleanup_on_remove : Bool
  pub config_path : String
  pub runtime_config_path : Option String
  pub disk : Dict String

-- `ConfigError`'s `Display`.
unfoldable pub error_text : ConfigError → String
error_text (ConfigError.io e) = "reading devices file: " <> e
error_text (ConfigError.parse e) = "parsing devices file: " <> e
error_text (ConfigError.unsupported_format ext) =
    "unsupported config file extension `" <> ext <> "`"
error_text (ConfigError.duplicate_id id) = "duplicate device id `" <> id <> "`"
error_text (ConfigError.missing_field device field) =
    "device `" <> device <> "` is missing `" <> field <> "` (set it on the device or in [defaults])"
error_text (ConfigError.unknown_disabled_field device field) =
    "device `" <> device <> "` disables `" <> field
    <> "`, which is not a field this server can query or write (see `GET /v1/reads` and `GET /v1/writes` for the accepted names)"
error_text (ConfigError.empty_group id) = "group `" <> id <> "` has no member devices"
error_text (ConfigError.unknown_group_member group device) =
    "group `" <> group <> "` names unknown device `" <> device <> "` (no matching [[device]])"

unfoldable pub refusal_of : ConfigError → InventoryRefusal
unfolding error_text
refusal_of (ConfigError.duplicate_id id) = InventoryRefusal.duplicate (
    "'" <> id <> "' already names a device or group; use PUT /v1/inventory/devices/" <> id
    <> " to replace it")
refusal_of (ConfigError.unknown_group_member group device) = InventoryRefusal.blocked (
    "group '" <> group <> "' still names device '" <> device <> "'; remove it from the group first")
refusal_of other = InventoryRefusal.malformed (error_text other)

-- A configuration with every key written out.
unfoldable pub raw_of : DeviceConfig → RawDevice
raw_of config = record {
  id = config.id;
  host = config.host;
  port = some config.port;
  username = some config.username;
  password = some config.password;
  connect_secs = some (as_secs config.connect_timeout);
  exchange_secs = some (as_secs config.exchange_timeout);
  eager = some config.eager;
  sis_keepalive_secs = some (secs_or_zero config.sis_keepalive);
  eager_retry_secs = some (secs_or_zero config.eager_retry);
  cold_backoff_secs = some (secs_or_zero config.cold_backoff);
  disabled_fields = some config.disabled_fields;
  auto_disable_after = some config.auto_disable_after;
  self_heal_secs = some (secs_or_zero config.self_heal);
}

-- `apply_locked`: the registry, and the next generation.
unfoldable pub apply_locked : Resolved → LiveFleet → LiveFleet × RegistryChange
unfolding apply
apply_locked resolved f =
    let applied = apply resolved f.registry in
    (record f { registry = applied.0; generation = (f.generation + 1) % 2 ^ 64 }, applied.1)

-- The catalog takes the summaries of what is resolved.
unfoldable pub list_resolved : Resolved → LiveFleet → LiveFleet
unfolding replace summarize summarize_group
list_resolved resolved f = record f {
  catalog =
      replace device_summary group_summary (map summarize resolved.devices)
        (map summarize_group resolved.groups) f.catalog;
}

module _ (w : World) where
  unfoldable pub persist : Resolved → LiveFleet → LiveFleet
  unfolding format_of export_document
  persist resolved f = elim f.runtime_config_path [
    | none ↦ f
    | some path ↦
        let query : ExportQuery = record {
          format = format_of (w.extension path);
          promote_auto_disabled_fields_to_disabled_fields = false;
          include_secrets = true;
        } in
        elim (w.print query.format
          (export_document resolved.devices resolved.groups Dict.empty query)) [
            | err _ ↦ f
            | ok body ↦ elim (w.write_error path body) [
              | some _ ↦ f
              | none ↦ record f { disk = Dict.insert path body f.disk }
            ]
          ]
  ]

  -- `amend`: an edit that is refused, or that does not resolve, changes nothing.
  unfoldable pub amend :
      (RawConfig → Result RawConfig InventoryRefusal)
      → LiveFleet
      → Result (Resolved × LiveFleet) InventoryRefusal
  unfolding resolve_config refusal_of raw_of list_resolved apply_locked persist
  amend edit f = do
    amended ← edit f.document
    resolved ← map_err refusal_of (resolve_config w.new_v5 amended)
    let document : RawConfig = record {
      defaults = f.document.defaults;
      devices = map raw_of resolved.devices;
      groups = amended.groups;
    }
    let listed = list_resolved resolved (record f { document = document })
    ok (resolved, persist resolved (apply_locked resolved listed).0)
