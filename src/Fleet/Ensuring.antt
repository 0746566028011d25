-- ===== src/Fleet/Ensuring.antt =====
-- The first loop of `Registry::apply`, seen at one id.
use sismatic.Common.{
  ℕ, suc, ◌≤◌, String, ◌≡◌, refl, sym, subst, Bool, true, false, not, Option, none, some, List, [],
  ◌∷◌, ◌==◌, map, eq_iff, eq_refl, arith, contains, ascending, inl, inr, Option-cases, absent_below,
  if◌then◌else◌,
}
use sismatic.Common.Dict
use sismatic.Common.Dict.{Dict, get-insert, first_value}
use sismatic.Fleet.Config.{DeviceConfig}
use sismatic.Fleet.Registry.{
  Device, Registry, RegistryChange, insert_new, insert_replacement, ensure_device, ensure_devices,
}

-- What a device becomes that is wanted under this configuration, where the next allocation draws the
-- number: it stays the device it is, or another with its record of refusals is in its place, or a new
-- one with a new record.
pub data Followed (next : ℕ) (c : DeviceConfig) : Option Device → Option Device → Type 0 where
  kept : {d : Device} → (d.config.uuid == c.uuid) ≡ true → Followed next c (some d) (some d)
  replaced :
      {d e : Device}
      → (d.config.uuid == c.uuid) ≡ false
      → e.config ≡ c
      → next ≤ e.handle
      → e.auto_disabled ≡ d.auto_disabled
      → Followed next c (some d) (some e)
  added :
      {e : Device}
      → e.config ≡ c
      → next ≤ e.handle
      → next ≤ e.auto_disabled
      → Followed next c none (some e)

later-Followed :
    (next later : ℕ) (c : DeviceConfig) (before after : Option Device)
    → next ≤ later
    → Followed later c before after
    → Followed next c before after
later-Followed next later c before after le (kept same) = kept same
later-Followed next later c before after le (replaced other is new shared) =
    replaced other is (omega arith) shared
later-Followed next later c before after le (added is new fresh) =
    added is (omega arith) (omega arith)

abbrev new_device : DeviceConfig → Registry → Device
new_device c r = record { config = c; handle = suc r.next_handle; auto_disabled = r.next_handle }

abbrev replacement : DeviceConfig → Device → Registry → Device
replacement c existing r = record {
  config = c;
  handle = r.next_handle;
  auto_disabled = existing.auto_disabled;
}

-- What one round leaves under any id.
ensure_device_lem :
    (id j : String) (c : DeviceConfig) (r : Registry) (change : RegistryChange)
    → Dict.get j (ensure_device (id, c) (r, change)).0.devices ≡ (
        if not (id == j) then Dict.get j r.devices else (elim (Dict.get id r.devices) [
          | none ↦ some (new_device c r)
          | some d ↦ some (if d.config.uuid == c.uuid then d else replacement c d r)
        ]))
unfolding ensure_device insert_new insert_replacement
ensure_device_lem id j c r change = elim (Option-cases (Dict.get id r.devices)) [
  | inl e ↦ ground (arith, e, get-insert id j (new_device c r) r.devices)
  | inr (d, e) ↦ ground (arith, e, get-insert id j (replacement c d r) r.devices, eq_iff id j)
]

ensure_device-Followed :
    (id : String) (c : DeviceConfig) (r : Registry) (change : RegistryChange)
    → Followed r.next_handle c
        (Dict.get id r.devices)
        (Dict.get id (ensure_device (id, c) (r, change)).0.devices)
ensure_device-Followed id c r change =
    subst (Followed r.next_handle c (Dict.get id r.devices))
      (sym (ensure_device_lem id id c r change))
      (subst
        (λ b.
          Followed r.next_handle c (Dict.get id r.devices)
            (if not b then Dict.get id r.devices else became (Dict.get id r.devices)))
        (sym (eq_refl id)) (by_found (Dict.get id r.devices)))
  where
    became : Option Device → Option Device
    became none = some (new_device c r)
    became (some d) = some (if d.config.uuid == c.uuid then d else replacement c d r)

    by_choice :
        (d : Device) (b : Bool)
        → (d.config.uuid == c.uuid) ≡ b
        → Followed r.next_handle c (some d) (some (if b then d else replacement c d r))
    by_choice d true same = kept same
    by_choice d false other = replaced other refl (omega arith) refl

    by_found : (found : Option Device) → Followed r.next_handle c found (became found)
    by_found none = added refl (omega arith) (omega arith)
    by_found (some d) = by_choice d (d.config.uuid == c.uuid) refl

ensure_device_next :
    (id : String) (c : DeviceConfig) (s : Registry × RegistryChange)
    → s.0.next_handle ≤ (ensure_device (id, c) s).0.next_handle
unfolding ensure_device insert_new insert_replacement
ensure_device_next id c (r, change) = ground arith

ensure_devices_elsewhere :
    (m : List (String × DeviceConfig)) (j : String) (s : Registry × RegistryChange)
    → contains j (map (λ e. e.0) m) ≡ false
    → Dict.get j (ensure_devices m s).0.devices ≡ Dict.get j s.0.devices
unfolding ensure_devices contains
ensure_devices_elsewhere [] j s absent = refl
ensure_devices_elsewhere ((id, c) ∷ m) j (r, change) absent = ground (
  arith,
  ensure_devices_elsewhere m j (ensure_device (id, c) (r, change)),
  ensure_device_lem id j c r change,
  eq_iff id j,
  eq_iff j id,
)

-- What the loop makes of what stood under an id: nothing else where the id is not wanted.
abbrev pub Ensured : ℕ → Option DeviceConfig → Option Device → Option Device → Type 0
Ensured next none before after = after ≡ before
Ensured next (some c) before after = Followed next c before after

later-Ensured :
    (next later : ℕ) (want : Option DeviceConfig) (before after : Option Device)
    → next ≤ later
    → Ensured later want before after
    → Ensured next want before after
later-Ensured next later none before after le h = h
later-Ensured next later (some c) before after le h = later-Followed next later c before after le h

pub ensure_devices-Ensured :
    (m : List (String × DeviceConfig)) (j : String) (r : Registry) (change : RegistryChange)
    → ascending (map (λ e. e.0) m) ≡ true
    → Ensured r.next_handle
        (first_value j m)
        (Dict.get j r.devices)
        (Dict.get j (ensure_devices m (r, change)).0.devices)
unfolding ensure_devices ascending
ensure_devices-Ensured [] j r change up = refl
ensure_devices-Ensured ((id, c) ∷ m) j r change up =
    chosen (id == j) refl (ensure_devices-Ensured m j round.0 round.1 (ground arith))
  where
    round : Registry × RegistryChange
    round = ensure_device (id, c) (r, change)

    last : Option Device
    last = Dict.get j (ensure_devices m round).0.devices

    elsewhere : (id == j) ≡ false → Dict.get j round.0.devices ≡ Dict.get j r.devices
    elsewhere other = ground (arith, ensure_device_lem id j c r change, other)

    absent : (k : String) → k ≡ id → contains k (map (λ e. e.0) m) ≡ false
    absent k same =
        subst (λ k. contains k (map (λ e. e.0) m) ≡ false) (sym same)
          (absent_below id (map (λ e. e.0) m) (ground arith))

    first :
        (k : String)
        → id ≡ k
        → Followed r.next_handle c
            (Dict.get k r.devices)
            (Dict.get k (ensure_devices m round).0.devices)
    first k same =
        subst
          (λ k.
            Followed r.next_handle c (Dict.get k r.devices)
              (Dict.get k (ensure_devices m round).0.devices))
          same
          (subst (Followed r.next_handle c (Dict.get id r.devices))
            (sym (ensure_devices_elsewhere m id round (absent id refl)))
            (ensure_device-Followed id c r change))

    chosen :
        (b : Bool)
        → (id == j) ≡ b
        → Ensured round.0.next_handle (first_value j m) (Dict.get j round.0.devices) last
        → Ensured r.next_handle (if b then some c else first_value j m) (Dict.get j r.devices) last
    chosen true mine rest = first j (ground (arith, eq_iff id j))
    chosen false other rest =
        later-Ensured r.next_handle round.0.next_handle (first_value j m) (Dict.get j r.devices)
          last (ensure_device_next id c (r, change))
          (subst (λ b. Ensured round.0.next_handle (first_value j m) b last) (elsewhere other) rest)
