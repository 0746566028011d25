-- ===== src/Sync/Wanted.antt =====
-- What a schedule wants of a fleet.
use sismatic.Common.{
  ℕ, String, ◌≡◌, refl, false, some, List, [], ◌∷◌, eq_iff, arith, contains, inl, inr, Bool-cases,
  Option-cases, ap, sym, ◌∙◌, subst,
}
use sismatic.Common.Dict
use sismatic.Common.Dict.{Dict, Listed, get-empty}
use sismatic.Sync.Pairs.{Key, same_key, get2, insert2, get2-insert2}
use sismatic.Sync.Driver.{
  FieldSchedule, Device, Wanted, want_on, want_on_devices, want_field, want_fields, wanted_loops,
}

-- A device under the key's id, the one that the loop is for, that does not disable the key's field.
abbrev pub AllowedBy : List (String × Device) → Key → Wanted → Type 0
AllowedBy fleet k w =
    (device : Device) × Listed k.1 device fleet
    × (device.uuid ≡ w.device)
    × (contains k.0 device.disabled_fields ≡ false)

abbrev pub AllAllowed : List (String × Device) → Dict (Dict Wanted) → Type 0
AllAllowed fleet wanted = (k : Key) (w : Wanted) → get2 k wanted ≡ some w → AllowedBy fleet k w

insert2-AllAllowed :
    (fleet : List (String × Device)) (k : Key) (w : Wanted) (wanted : Dict (Dict Wanted))
    → AllowedBy fleet k w
    → AllAllowed fleet wanted
    → AllAllowed fleet (insert2 k w wanted)
insert2-AllAllowed fleet k w wanted here h j v e = elim (Bool-cases (same_key k j)) [
  | inl mine ↦
      let same : w ≡ v = ground (arith, get2-insert2 k j w wanted) in
      let (device, listed, uuid, open_field) = here in
      let first : k.0 ≡ j.0 = ground (arith, eq_iff k.0 j.0) in
      let second : k.1 ≡ j.1 = ground (arith, eq_iff k.1 j.1) in
      (
        device,
        subst (λ id. Listed id device fleet) second listed,
        uuid ∙ ap (λ (x : Wanted). x.device) same,
        ap (λ f. contains f device.disabled_fields) (sym first) ∙ open_field,
      )
  | inr other ↦ h j v (ground (arith, get2-insert2 k j w wanted))
]

want_on-AllAllowed :
    (whole : List (String × Device)) (name : String) (interval : ℕ) (id : String) (device : Device)
    (s : Dict (Dict Wanted) × ℕ)
    → Listed id device whole
    → AllAllowed whole s.0
    → AllAllowed whole (want_on name interval id device s).0
unfolding want_on
want_on-AllAllowed whole name interval id device (wanted, declined) listed h =
    elim (Bool-cases (contains name device.disabled_fields)) [
      | inl vetoed ↦ rw (vetoed, want_on) h
      | inr open_field ↦
          rw (open_field, want_on)
            (insert2-AllAllowed whole (name, id) _ wanted (device, listed, refl, open_field) h)
    ]

want_on_devices-AllAllowed :
    (whole : List (String × Device)) (name : String) (interval : ℕ) (fleet : List (String × Device))
    (s : Dict (Dict Wanted) × ℕ)
    → ((id : String) (d : Device) → Listed id d fleet → Listed id d whole)
    → AllAllowed whole s.0
    → AllAllowed whole (want_on_devices name interval fleet s).0
unfolding want_on_devices
want_on_devices-AllAllowed whole name interval [] s sub h = h
want_on_devices-AllAllowed whole name interval ((id, device) ∷ fleet) s sub h =
    want_on_devices-AllAllowed whole name interval fleet (want_on name interval id device s)
      (λ j d l. sub j d (Listed.later l))
      (want_on-AllAllowed whole name interval id device s (sub id device (Listed.first refl refl))
        h)

want_field-AllAllowed :
    (entry : FieldSchedule) (fleet : List (String × Device)) (s : Dict (Dict Wanted) × ℕ)
    → AllAllowed fleet s.0
    → AllAllowed fleet (want_field entry fleet s).0
unfolding want_field
want_field-AllAllowed entry fleet s h = elim (Option-cases entry.interval) [
  | inl e ↦ rw (e, want_field) h
  | inr (interval, e) ↦
      rw (e, want_field)
        (want_on_devices-AllAllowed fleet entry.name interval fleet s (λ _ _ l. l) h)
]

want_fields-AllAllowed :
    (schedule : List FieldSchedule) (fleet : List (String × Device)) (s : Dict (Dict Wanted) × ℕ)
    → AllAllowed fleet s.0
    → AllAllowed fleet (want_fields schedule fleet s).0
unfolding want_fields
want_fields-AllAllowed [] fleet s h = h
want_fields-AllAllowed (entry ∷ schedule) fleet s h =
    want_fields-AllAllowed schedule fleet (want_field entry fleet s)
      (want_field-AllAllowed entry fleet s h)

-- A loop is wanted only for a device of the fleet, under its identity, and only for a field that the
-- device does not disable.
pub wanted_loops-AllAllowed :
    (schedule : List FieldSchedule) (fleet : Dict Device) (k : Key) (w : Wanted)
    → get2 k (wanted_loops schedule fleet).0 ≡ some w
    → AllowedBy fleet.entries k w
unfolding wanted_loops
wanted_loops-AllAllowed schedule fleet =
    want_fields-AllAllowed schedule fleet.entries (Dict.empty, 0)
      (λ k w e. absurd (unfold get2 in ground (arith, get-empty {V = Dict Wanted} k.0)))
