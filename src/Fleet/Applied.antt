-- ===== src/Fleet/Applied.antt =====
-- What `Registry::apply` makes of the devices.
use sismatic.Common.{
  ℕ, String, ◌≡◌, refl, sym, subst, true, not, ◌&&◌, Option, none, some, List, [], ◌∷◌, ◌++◌,
  eq_iff, arith, contains, contains-select, ascending, if◌then◌else◌,
}
use sismatic.Common.Dict
use sismatic.Common.Dict.{Dict, get-remove, get_first}
use sismatic.Common.Dict.Ordered.{ascending-keys-insert, ascending-keys-empty, contains-keys}
use sismatic.Fleet.Config.{DeviceConfig, Resolved}
use sismatic.Fleet.Registry.{
  Device, Registry, RegistryChange, ensure_devices, remove_devices, stale_ids, desired_of, follow,
  rebuild_groups, apply,
}
use sismatic.Fleet.Ensuring.{Followed, Ensured, ensure_devices-Ensured}

remove_devices_lem :
    (ids : List String) (j : String) (s : Registry × RegistryChange)
    → Dict.get j (remove_devices ids s).0.devices
      ≡ (if contains j ids then none else Dict.get j s.0.devices)
unfolding remove_devices contains
remove_devices_lem [] j s = refl
remove_devices_lem (id ∷ ids) j (r, change) = ground (
  arith,
  remove_devices_lem ids j (
    record r { devices = Dict.remove id r.devices },
    record change { removed = change.removed ++ id ∷ [] },
  ),
  get-remove id j r.devices,
  eq_iff id j,
  eq_iff j id,
)

contains-stale_ids :
    (desired : Dict DeviceConfig) (r : Registry) (j : String)
    → contains j (stale_ids desired r)
      ≡ (Dict.contains_key j r.devices && not (Dict.contains_key j desired))
unfolding stale_ids
contains-stale_ids desired r j = ground (
  arith,
  contains-select (λ id. not (contains id (Dict.keys desired))) j (Dict.keys r.devices),
  contains-keys j r.devices,
  contains-keys j desired,
)

-- What is to be found under an id, by what is wanted there and what was.
abbrev pub Applied : ℕ → Option DeviceConfig → Option Device → Option Device → Type 0
Applied next none before after = after ≡ none
Applied next (some c) before after = Followed next c before after

follow-Applied :
    (desired : Dict DeviceConfig) (r : Registry) (j : String)
    → ascending (Dict.keys desired) ≡ true
    → Applied r.next_handle
        (Dict.get j desired)
        (Dict.get j r.devices)
        (Dict.get j (follow desired r).0.devices)
unfolding follow Dict.keys
follow-Applied desired r j up = by_want (Dict.get j desired) refl (
    subst (λ w. Ensured r.next_handle w (Dict.get j r.devices) (Dict.get j ensured.0.devices))
      (sym (get_first j desired)) (ensure_devices-Ensured desired.entries j r nothing up))
  where
    nothing : RegistryChange
    nothing = record { added = []; replaced = []; removed = []; unchanged = 0 }

    ensured : Registry × RegistryChange
    ensured = ensure_devices desired.entries (r, nothing)

    last : Option Device
    last = Dict.get j (remove_devices (stale_ids desired ensured.0) ensured).0.devices

    last_lem : last ≡ (
        if Dict.contains_key j ensured.0.devices && not (Dict.contains_key j desired)
        then none
        else Dict.get j ensured.0.devices)
    last_lem = ground (
      arith,
      remove_devices_lem (stale_ids desired ensured.0) j ensured,
      contains-stale_ids desired ensured.0 j,
    )

    by_want :
        (w : Option DeviceConfig)
        → Dict.get j desired ≡ w
        → Ensured r.next_handle w (Dict.get j r.devices) (Dict.get j ensured.0.devices)
        → Applied r.next_handle w (Dict.get j r.devices) last
    by_want none e _ = ground (arith, last_lem, e)
    by_want (some c) e became =
        let same : last ≡ Dict.get j ensured.0.devices = ground (arith, last_lem, e) in
        subst (Followed r.next_handle c (Dict.get j r.devices)) (sym same) became

desired_of-ascending :
    (configs : List DeviceConfig) (desired : Dict DeviceConfig)
    → ascending (Dict.keys desired) ≡ true
    → ascending (Dict.keys (desired_of configs desired)) ≡ true
unfolding desired_of
desired_of-ascending [] desired up = up
desired_of-ascending (c ∷ configs) desired up =
    desired_of-ascending configs (Dict.insert c.id c desired)
      (ascending-keys-insert c.id c desired up)

-- After an application there is a device under an id just where a configuration has the id. It is
-- the device that was there, the same handle, where its identity is the configuration's; where it is
-- another, a new device under the configuration that goes on with the old one's record of refusals;
-- and where there was none, a new device with a record of its own.
pub apply-Applied :
    (resolved : Resolved) (r : Registry) (id : String)
    → Applied r.next_handle
        (Dict.get id (desired_of resolved.devices Dict.empty))
        (Dict.get id r.devices)
        (Dict.get id (apply resolved r).0.devices)
unfolding apply rebuild_groups
apply-Applied resolved r id =
    follow-Applied (desired_of resolved.devices Dict.empty) r id
      (desired_of-ascending resolved.devices Dict.empty (ascending-keys-empty DeviceConfig))
