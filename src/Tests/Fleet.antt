-- ===== src/Tests/Fleet.antt =====
-- A fleet of two devices and a hall at work.
use sismatic.Common.{
  ℕ, ◌+◌, String, ◌≡◌, refl, true, false, none, some, List, [], ◌∷◌, map, decimal, Result, ok, err,
  set_insert,
}
use sismatic.Common.Dict
use sismatic.Common.Dict.{Dict}
use sismatic.Reads.Sizes.{Layout}
use sismatic.Reads.State.{with_budget}
use sismatic.Tests.Fixtures.{fresh_outbox}
use sismatic.Protocol.Queries.{query_name, query_from_str, query_accepted}
use sismatic.Fleet.Config.{
  Defaults, RawDevice, RawGroup, RawConfig, DeviceConfig, Resolved, ConfigError,
}
use sismatic.Fleet.Resolve.{resolve, resolve_config, canonical_field}
use sismatic.Fleet.Registry.{build, apply, desired_of}
use sismatic.Fleet.Live.{World, LiveFleet, raw_of}
use sismatic.Fleet.Inventory.{DeviceWrite}
use sismatic.Fleet.Operations.{add, remove}
use sismatic.Fleet.RoundTrip.{resolve-raw_of}
use sismatic.Fleet.Applied.{Applied, apply-Applied}
use sismatic.Fleet.Agreement.{InStep}
use sismatic.Fleet.History.{start_fleet, FleetReach}
use sismatic.Fleet.Steps.{FleetReach-InStep}
use sismatic.Fleet.Growth.{add-registry_keeps}

abbrev total : List ℕ → ℕ
total [] = 0
total (b ∷ bytes) = b + total bytes

-- An identity is the sum of the bytes; a document prints as nothing, and no file is written.
abbrev lab : World
lab = record {
  new_v5 = λ space bytes. decimal (total bytes);
  print = λ format document. ok "";
  write_error = λ path body. some "read only";
  extension = λ path. some "toml";
  load_raw = λ path. err (ConfigError.io "no such file");
}

abbrev admin : Defaults
admin = record {
  port = none;
  username = some "admin";
  password = some "extron";
  connect_secs = none;
  exchange_secs = some 2;
  eager = none;
  sis_keepalive_secs = none;
  eager_retry_secs = none;
  cold_backoff_secs = none;
  disabled_fields = some ("stream-name-2" ∷ "DATE" ∷ []);
  auto_disable_after = none;
  self_heal_secs = none;
}

abbrev no_defaults : Defaults
no_defaults = record admin { username = none; password = none; disabled_fields = none }

abbrev written : String → String → RawDevice
written id host = record {
  id = id;
  host = host;
  port = none;
  username = none;
  password = none;
  connect_secs = some 20;
  exchange_secs = none;
  eager = some true;
  sis_keepalive_secs = some 0;
  eager_retry_secs = none;
  cold_backoff_secs = none;
  disabled_fields = none;
  auto_disable_after = none;
  self_heal_secs = some 600;
}

abbrev hall : RawGroup
hall = record {
  id = "hall";
  devices = "left" ∷ "right" ∷ [];
  barrier_timeout_secs = none;
  barrier = none;
}

abbrev file : RawConfig
file = record {
  defaults = admin;
  devices = written "left" "10.0.0.1" ∷ written "right" "10.0.0.2" ∷ [];
  groups = hall ∷ [];
}

abbrev resolved_or_none : Result Resolved ConfigError → Resolved
resolved_or_none (ok r) = r
resolved_or_none (err _) = record { devices = []; groups = [] }

abbrev two : Resolved
unfolding resolve_config canonical_field query_from_str query_accepted
two = resolved_or_none (resolve_config lab.new_v5 file)

file_resolves : resolve_config lab.new_v5 file ≡ ok two
unfolding resolve_config canonical_field query_from_str query_accepted
file_resolves = refl

the_hall_waits : map (λ g. g.barrier_timeout) two.groups ≡ 22000000000 ∷ []
unfolding resolve_config canonical_field query_from_str query_accepted
the_hall_waits = refl

abbrev pub no_device : DeviceConfig
no_device = record {
  uuid = "";
  id = "";
  host = "";
  port = 0;
  username = "";
  password = "";
  connect_timeout = 0;
  exchange_timeout = 0;
  eager = false;
  sis_keepalive = none;
  eager_retry = none;
  cold_backoff = none;
  disabled_fields = [];
  auto_disable_after = 0;
  self_heal = none;
}

abbrev config_or_none : Result DeviceConfig ConfigError → DeviceConfig
config_or_none (ok c) = c
config_or_none (err _) = no_device

abbrev one_left : DeviceConfig
unfolding resolve canonical_field query_from_str query_accepted
one_left = config_or_none (resolve lab.new_v5 admin (written "left" "10.0.0.1"))

left_resolves : resolve lab.new_v5 admin (written "left" "10.0.0.1") ≡ ok one_left
unfolding resolve canonical_field query_from_str query_accepted
left_resolves = refl

left_disables : one_left.disabled_fields ≡ "DATE" ∷ "STREAM_2_NAME" ∷ []
unfolding resolve canonical_field query_from_str query_accepted query_name set_insert
left_disables = refl

resolve-raw_of_example : resolve lab.new_v5 no_defaults (raw_of one_left) ≡ ok one_left
resolve-raw_of_example =
    resolve-raw_of lab.new_v5 admin no_defaults (written "left" "10.0.0.1") one_left left_resolves

abbrev elsewhere : Resolved
elsewhere = record two { devices = one_left ∷ [] }

apply-Applied_example :
    Applied
      (build two.devices two.groups).next_handle
      (Dict.get "left" (desired_of elsewhere.devices Dict.empty))
      (Dict.get "left" (build two.devices two.groups).devices)
      (Dict.get "left" (apply elsewhere (build two.devices two.groups)).0.devices)
apply-Applied_example = apply-Applied elsewhere (build two.devices two.groups) "left"

abbrev parts : LiveFleet
parts = record {
  registry = build [] [];
  generation = 0;
  document = file;
  catalog = record { devices = []; groups = [] };
  outbox = fresh_outbox;
  store = with_budget none;
  cleanup_on_remove = true;
  config_path = "devices.toml";
  runtime_config_path = some "runtime.toml";
  disk = Dict.empty;
}

abbrev begun : LiveFleet
begun = start_fleet file two parts

abbrev third : DeviceWrite
third = record {
  id = some "back";
  host = "10.0.0.3";
  port = some 23;
  username = none;
  password = none;
  connect_secs = none;
  exchange_secs = none;
  eager = none;
  sis_keepalive_secs = none;
  eager_retry_secs = none;
  cold_backoff_secs = none;
  disabled_fields = none;
  auto_disable_after = none;
  self_heal_secs = none;
}

abbrev sizes : Layout
sizes = record { read = 96; slot = 80; alarm = 48 }

FleetReach-InStep_example : InStep lab (remove lab sizes "back" (add lab third begun).1).1
FleetReach-InStep_example = FleetReach-InStep lab sizes (
    FleetReach.removed "back"
      (FleetReach.added third (FleetReach.started file two parts file_resolves)))

add-registry_keeps_example :
    Dict.get "left" (add lab third begun).1.registry.devices
    ≡ Dict.get "left" begun.registry.devices
add-registry_keeps_example =
    add-registry_keeps lab third begun "back" "left"
      (FleetReach-InStep lab sizes (FleetReach.started file two parts file_resolves)) refl refl
