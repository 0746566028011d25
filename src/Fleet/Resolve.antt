-- ===== src/Fleet/Resolve.antt =====
-- crates/sismatic-core/src/devices/config.rs: `resolve_config` and what it calls. Rust panics where a
-- sum of two timeouts passes the largest duration; the sum here does not end.
use sismatic.Common.{
  ℕ, ◌+◌, ◌/◌, ◌%◌, ◌^◌, max, String, false, Option, none, some, List, [], ◌∷◌, ◌==◌, map, not,
  contains, find_first, collect, set_insert, ltb, Result, ok, err, ◌>>=◌, ok_or, if◌then◌else◌,
}
use sismatic.Api.{Barrier}
use sismatic.Protocol.Queries.{query_name, query_from_str}
use sismatic.Protocol.Settings.{setting_name, setting_from_str}
use sismatic.Protocol.Registers.{register_name, register_from_str}
use sismatic.Fleet.Config.{
  RawBarrier, Defaults, RawDevice, RawGroup, RawConfig, DeviceConfig, GroupConfig, Resolved,
  ConfigError, duplicate_id, missing_field, unknown_disabled_field, empty_group,
  unknown_group_member, from_secs,
}
use sismatic.Fleet.Fingerprint.{derive_uuid}

-- `a.or(b)`.
abbrev pub or_else {ℓ} : {A : Type ℓ} → Option A → Option A → Option A
or_else none b = b
or_else (some a) b = some a

-- `a.unwrap_or(default)`.
abbrev pub or_default {ℓ} : {A : Type ℓ} → A → Option A → A
or_default d none = d
or_default d (some a) = a

abbrev pub inherited {ℓ} : {A : Type ℓ} → Option A → Option A → A → A
inherited own fleet default = or_default default (or_else own fleet)

-- `RawBarrier` into `Barrier`.
abbrev pub barrier_of : RawBarrier → Barrier
barrier_of RawBarrier.fail_batch = Barrier.fail_batch
barrier_of RawBarrier.dispatch_ready = Barrier.dispatch_ready

unfoldable pub require {ℓ} : {A : Type ℓ} → String → String → Option A → Result A ConfigError
require device field value = ok_or (missing_field device field) value

-- A field of the queries, or else of the settings, or else of the registers.
unfoldable pub canonical_field : String → Option String
canonical_field written = elim (query_from_str written) [
  | some q ↦ some (query_name q)
  | none ↦ elim (setting_from_str written) [
    | some s ↦ some (setting_name s)
    | none ↦ elim (register_from_str written) [ some r ↦ some (register_name r) | none ↦ none ]
  ]
]

-- `collect` into a `Result<BTreeSet<_>, _>`: the first error ends it.
unfoldable pub canonical_set : String → List String → List String → Result (List String) ConfigError
canonical_set device [] found = ok found
canonical_set device (written ∷ rest) found = do
  name ← ok_or (unknown_disabled_field device written) (canonical_field written)
  canonical_set device rest (set_insert name found)

unfoldable pub canonicalize_disabled :
    String → Option (List String) → Result (List String) ConfigError
unfolding canonical_set
canonicalize_disabled device none = ok []
canonicalize_disabled device (some fields) = canonical_set device fields []

-- `(secs > 0).then(|| Duration::from_secs(secs))`.
abbrev pub interval : ℕ → Option ℕ
interval secs = if ltb 0 secs then some (from_secs secs) else none

module _ (new_v5 : List ℕ → List ℕ → String) where
  unfoldable pub resolve : Defaults → RawDevice → Result DeviceConfig ConfigError
  unfolding require canonicalize_disabled derive_uuid
  resolve defaults device = do
    username ← require device.id "username" (or_else device.username defaults.username)
    password ← require device.id "password" (or_else device.password defaults.password)
    disabled ←
        canonicalize_disabled device.id (or_else device.disabled_fields defaults.disabled_fields)
    ok (
        derive_uuid new_v5 (record {
          uuid = "00000000-0000-0000-0000-000000000000";
          id = device.id;
          host = device.host;
          port = inherited device.port defaults.port 22023;
          username = username;
          password = password;
          connect_timeout = from_secs (inherited device.connect_secs defaults.connect_secs 5);
          exchange_timeout = from_secs (inherited device.exchange_secs defaults.exchange_secs 3);
          eager = inherited device.eager defaults.eager false;
          sis_keepalive =
              interval (inherited device.sis_keepalive_secs defaults.sis_keepalive_secs 120);
          eager_retry = interval (inherited device.eager_retry_secs defaults.eager_retry_secs 30);
          cold_backoff =
              interval (inherited device.cold_backoff_secs defaults.cold_backoff_secs 30);
          disabled_fields = disabled;
          auto_disable_after = inherited device.auto_disable_after defaults.auto_disable_after 2;
          self_heal = interval (inherited device.self_heal_secs defaults.self_heal_secs 0);
        }))

  -- The loop over the devices: the ids seen, and the devices resolved.
  unfoldable pub resolve_devices :
      Defaults → List RawDevice → List String → Result (List String × List DeviceConfig) ConfigError
  unfolding resolve
  resolve_devices defaults [] seen = ok (seen, [])
  resolve_devices defaults (device ∷ rest) seen =
      if contains device.id seen then err (duplicate_id device.id) else do
        config ← resolve defaults device
        found ← resolve_devices defaults rest (device.id ∷ seen)
        ok (found.0, config ∷ found.1)

-- The largest of the timeouts, zero of none.
abbrev slowest : List ℕ → ℕ
slowest [] = 0
slowest (t ∷ ts) = max t (slowest ts)

-- `as_secs()`, one more where there is a rest, and at least one.
abbrev pub rounded : ℕ → ℕ
rounded nanos = max (nanos / 10 ^ 9 + (if ltb 0 (nanos % 10 ^ 9) then 1 else 0)) 1

unfoldable pub default_barrier_timeout : List DeviceConfig → List String → ℕ
unfolding collect find_first
default_barrier_timeout devices members =
    let known = collect (λ id. find_first (λ d. d.id == id) devices) members in
    from_secs (rounded (slowest (map (λ d. d.connect_timeout + d.exchange_timeout) known)))

-- The first member that no device has.
abbrev pub first_unknown : List DeviceConfig → List String → Option String
first_unknown devices members = find_first (λ m. not (contains m (map (λ d. d.id) devices))) members

unfoldable pub resolve_group : List DeviceConfig → RawGroup → Result GroupConfig ConfigError
unfolding default_barrier_timeout find_first contains
resolve_group devices group = elim group.devices [
  | [] ↦ err (empty_group group.id)
  | _ ∷ _ ↦ elim (first_unknown devices group.devices) [
    | some member ↦ err (unknown_group_member group.id member)
    | none ↦ ok (record {
      id = group.id;
      device_ids = group.devices;
      barrier_timeout = elim group.barrier_timeout_secs [
        | some secs ↦ from_secs secs
        | none ↦ default_barrier_timeout devices group.devices
      ];
      barrier = elim group.barrier [ some b ↦ barrier_of b | none ↦ Barrier.fail_batch ];
    })
  ]
]

unfoldable pub resolve_groups :
    List DeviceConfig → List RawGroup → List String → Result (List GroupConfig) ConfigError
unfolding resolve_group contains
resolve_groups devices [] seen = ok []
resolve_groups devices (group ∷ rest) seen =
    if contains group.id seen then err (duplicate_id group.id) else do
      config ← resolve_group devices group
      found ← resolve_groups devices rest (group.id ∷ seen)
      ok (config ∷ found)

unfoldable pub resolve_config : (List ℕ → List ℕ → String) → RawConfig → Result Resolved ConfigError
unfolding resolve_devices resolve_groups
resolve_config new_v5 raw = do
  found ← resolve_devices new_v5 raw.defaults raw.devices []
  groups ← resolve_groups found.1 raw.groups found.0
  ok (record { devices = found.1; groups = groups })
