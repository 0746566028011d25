-- ===== src/Fleet/Registry.antt =====
-- crates/sismatic-core/src/devices/registry.rs: the devices and groups that run. An `Arc` is a number
-- that its allocation draws, so that two handles to one object have one number. `apply` holds its
-- mutex from beginning to end. An iteration over a `DashMap` is taken in the order of the keys; what
-- comes of it is sorted.
use sismatic.Common.{
  ℕ, suc, ◌+◌, String, Bool, true, false, not, ◌&&◌, Option, none, some, List, [], ◌∷◌, ◌++◌, ◌==◌,
  map, select, contains, collect, if◌then◌else◌,
}
use sismatic.Common.Dict
use sismatic.Common.Dict.{Dict}
use sismatic.Catalog.Listing.{sort_by_id}
use sismatic.Fleet.Config.{DeviceConfig, GroupConfig, Resolved}

-- `handle` is the device's own `Arc`, and `auto_disabled` the one of its record of refusals.
pub record Device : Type 0 where
  pub config : DeviceConfig
  pub handle : ℕ
  pub auto_disabled : ℕ

pub record DeviceGroup : Type 0 where
  pub id : String
  pub devices : List Device

pub record Registry : Type 0 where
  pub devices : Dict Device
  pub groups : Dict DeviceGroup
  pub next_handle : ℕ

pub record RegistryChange : Type 0 where
  pub added : List String
  pub replaced : List String
  pub removed : List String
  pub unchanged : ℕ

-- `DeviceGroup::member_ids`.
unfoldable pub member_ids : DeviceGroup → List String
member_ids g = map (λ d. d.config.id) g.devices

-- `Vec<String>::sort`.
unfoldable pub sort_texts : List String → List String
unfolding sort_by_id
sort_texts ids = sort_by_id (record { id = λ id. id }) ids

unfoldable pub is_nothing : RegistryChange → Bool
is_nothing change = is_empty change.added && is_empty change.replaced && is_empty change.removed
  where
    is_empty : List String → Bool
    is_empty [] = true
    is_empty (_ ∷ _) = false

unfoldable pub invalidated : RegistryChange → List String
unfolding sort_texts
invalidated change = sort_texts (change.replaced ++ change.removed)

-- `Device::new`: a new record of refusals, and a new device.
unfoldable pub insert_new : String → DeviceConfig → Registry → Registry
insert_new id config r = record r {
  devices =
      Dict.insert id
        (record { config = config; handle = suc r.next_handle; auto_disabled = r.next_handle })
        r.devices;
  next_handle = r.next_handle + 2;
}

-- `Device::with_auto_disabled`: a new device with the record of refusals of another.
unfoldable pub insert_replacement : String → DeviceConfig → Device → Registry → Registry
insert_replacement id config existing r = record r {
  devices =
      Dict.insert id
        (record { config = config; handle = r.next_handle; auto_disabled = existing.auto_disabled })
        r.devices;
  next_handle = suc r.next_handle;
}

-- The members that are in the registry, and the group over them.
abbrev pub group_of : Dict Device → GroupConfig → DeviceGroup
unfolding collect
group_of devices g = record {
  id = g.id;
  devices = collect (λ id. Dict.get id devices) g.device_ids;
}

unfoldable pub insert_groups : Dict Device → List GroupConfig → Dict DeviceGroup → Dict DeviceGroup
insert_groups devices [] groups = groups
insert_groups devices (g ∷ gs) groups =
    insert_groups devices gs (Dict.insert g.id (group_of devices g) groups)

unfoldable pub rebuild_groups : List GroupConfig → Registry → Registry
unfolding insert_groups
rebuild_groups configs r = record r { groups = insert_groups r.devices configs Dict.empty }

-- `collect` into a map by id: of two configurations with one id the later stays.
unfoldable pub desired_of : List DeviceConfig → Dict DeviceConfig → Dict DeviceConfig
desired_of [] desired = desired
desired_of (config ∷ configs) desired = desired_of configs (Dict.insert config.id config desired)

-- `Registry::build`.
unfoldable pub insert_all : List DeviceConfig → Registry → Registry
unfolding insert_new
insert_all [] r = r
insert_all (config ∷ configs) r = insert_all configs (insert_new config.id config r)

unfoldable pub build : List DeviceConfig → List GroupConfig → Registry
unfolding insert_all rebuild_groups
build configs groups =
    let none_yet : Registry = record {
      devices = Dict.empty;
      groups = Dict.empty;
      next_handle = 0;
    } in
    rebuild_groups groups (insert_all configs none_yet)

-- One round of the first loop of `apply`.
unfoldable pub ensure_device :
    String × DeviceConfig → Registry × RegistryChange → Registry × RegistryChange
unfolding insert_new insert_replacement
ensure_device (id, config) (r, c) = elim (Dict.get id r.devices) [
  | some existing ↦
      if existing.config.uuid == config.uuid
      then (r, record c { unchanged = c.unchanged + 1 })
      else (insert_replacement id config existing r, record c { replaced = c.replaced ++ id ∷ [] })
  | none ↦ (insert_new id config r, record c { added = c.added ++ id ∷ [] })
]

unfoldable pub ensure_devices :
    List (String × DeviceConfig) → Registry × RegistryChange → Registry × RegistryChange
unfolding ensure_device
ensure_devices [] s = s
ensure_devices (entry ∷ entries) s = ensure_devices entries (ensure_device entry s)

-- The second loop of `apply`.
unfoldable pub remove_devices : List String → Registry × RegistryChange → Registry × RegistryChange
remove_devices [] s = s
remove_devices (id ∷ ids) (r, c) =
    remove_devices ids
      (record r { devices = Dict.remove id r.devices }, record c { removed = c.removed ++ id ∷ [] })

-- The ids in the registry that no configuration has.
unfoldable pub stale_ids : Dict DeviceConfig → Registry → List String
unfolding select contains
stale_ids desired r = select (λ id. not (contains id (Dict.keys desired))) (Dict.keys r.devices)

abbrev pub sorted_change : RegistryChange → RegistryChange
unfolding sort_texts
sorted_change c = record {
  added = sort_texts c.added;
  replaced = sort_texts c.replaced;
  removed = sort_texts c.removed;
  unchanged = c.unchanged;
}

abbrev no_change : RegistryChange
no_change = record { added = []; replaced = []; removed = []; unchanged = 0 }

-- The two loops of `apply`.
unfoldable pub follow : Dict DeviceConfig → Registry → Registry × RegistryChange
unfolding ensure_devices stale_ids remove_devices
follow desired r =
    let ensured = ensure_devices desired.entries (r, no_change) in
    remove_devices (stale_ids desired ensured.0) ensured

unfoldable pub apply : Resolved → Registry → Registry × RegistryChange
unfolding desired_of follow rebuild_groups
apply resolved r =
    let followed = follow (desired_of resolved.devices Dict.empty) r in
    (rebuild_groups resolved.groups followed.0, sorted_change followed.1)

pub data Target : Type 0 where
  device : Device → Target
  group : DeviceGroup → Target

-- `Registry::target`: a device before a group.
unfoldable pub target : String → Registry → Option Target
target id r = elim (Dict.get id r.devices) [
  | some d ↦ some (Target.device d)
  | none ↦ elim (Dict.get id r.groups) [ some g ↦ some (Target.group g) | none ↦ none ]
]
