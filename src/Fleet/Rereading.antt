-- ===== src/Fleet/Rereading.antt =====
-- A resolved document, with each device written out, resolves to the same again.
use sismatic.Common.{
  ℕ, String, ◌≡◌, refl, sym, ap, ◌∙◌, subst, false, List, [], ◌∷◌, map, arith, contains, ok,
  ok_injective, Result-cases, Bool-cases, inl, inr,
}
use sismatic.Fleet.Config.{Defaults, RawDevice, RawConfig, DeviceConfig, GroupConfig, Resolved}
use sismatic.Fleet.Resolve.{resolve, resolve_devices, resolve_groups, resolve_config}
use sismatic.Fleet.Live.{raw_of}
use sismatic.Fleet.RoundTrip.{resolve-raw_of, resolve-id}

abbrev pub rewritten_of : Defaults → RawConfig → Resolved → RawConfig
rewritten_of defaults raw resolved = record {
  defaults = defaults;
  devices = map raw_of resolved.devices;
  groups = raw.groups;
}

module _ (new_v5 : List ℕ → List ℕ → String) where
  -- The loop over the devices, from its first round and the rest.
  resolve_devices-round :
      (defaults : Defaults) (raw : RawDevice) (raws : List RawDevice) (seen : List String)
      (config : DeviceConfig) (found : List String × List DeviceConfig)
      → contains raw.id seen ≡ false
      → resolve new_v5 defaults raw ≡ ok config
      → resolve_devices new_v5 defaults raws (raw.id ∷ seen) ≡ ok found
      → resolve_devices new_v5 defaults (raw ∷ raws) seen ≡ ok (found.0, config ∷ found.1)
  unfolding resolve_devices
  resolve_devices-round defaults raw raws seen config found new f g = ground (arith, new, f, g)

  resolve_devices_again :
      (defaults others : Defaults) (raws : List RawDevice) (seen : List String)
      (found : List String × List DeviceConfig)
      → resolve_devices new_v5 defaults raws seen ≡ ok found
      → resolve_devices new_v5 others (map raw_of found.1) seen ≡ ok found
  unfolding resolve_devices raw_of
  resolve_devices_again defaults others [] seen found h =
      subst (λ r. resolve_devices new_v5 others (map raw_of r.1) seen ≡ ok r) (ok_injective h) refl
  resolve_devices_again defaults others (raw ∷ raws) seen found h =
      elim (Bool-cases (contains raw.id seen)) [
        | inl again ↦ absurd (ground (arith, again))
        | inr new ↦ elim (Result-cases (resolve new_v5 defaults raw)) [
          | inr (e, f) ↦ absurd (ground (arith, new, f))
          | inl (config, f) ↦
              elim (Result-cases (resolve_devices new_v5 defaults raws (raw.id ∷ seen))) [
                | inr (e, g) ↦ absurd (ground (arith, new, f, g))
                | inl (later, g) ↦
                    first_again config later new f g
                      (resolve_devices_again defaults others raws (raw.id ∷ seen) later g)
              ]
        ]
      ]
    where
      first_again :
          (config : DeviceConfig) (later : List String × List DeviceConfig)
          → contains raw.id seen ≡ false
          → resolve new_v5 defaults raw ≡ ok config
          → resolve_devices new_v5 defaults raws (raw.id ∷ seen) ≡ ok later
          → resolve_devices new_v5 others (map raw_of later.1) (raw.id ∷ seen) ≡ ok later
          → resolve_devices new_v5 others (map raw_of found.1) seen ≡ ok found
      first_again config later new f g rest =
          let same = resolve-id new_v5 defaults raw config f in
          let whole = resolve_devices-round defaults raw raws seen config later new f g in
          let again =
            resolve_devices-round others (raw_of config) (map raw_of later.1) seen config later
              (ap (λ id. contains id seen) same ∙ new)
              (resolve-raw_of new_v5 defaults others raw config f)
              (subst
                (λ id. resolve_devices new_v5 others (map raw_of later.1) (id ∷ seen) ≡ ok later)
                (sym same) rest) in
          subst (λ r. resolve_devices new_v5 others (map raw_of r.1) seen ≡ ok r)
            (ok_injective (sym whole ∙ h)) again

  -- The document that an amendment leaves, the groups as they were and each device written out as it
  -- was resolved, resolves to just what was resolved, whatever its defaults.
  pub resolve_config-rewritten :
      (raw : RawConfig) (others : Defaults) (resolved : Resolved)
      → resolve_config new_v5 raw ≡ ok resolved
      → resolve_config new_v5 (rewritten_of others raw resolved) ≡ ok resolved
  unfolding resolve_config
  resolve_config-rewritten raw others resolved h =
      elim (Result-cases (resolve_devices new_v5 raw.defaults raw.devices [])) [
        | inr (e, f) ↦ absurd (ground (arith, f))
        | inl (found, f) ↦ elim (Result-cases (resolve_groups found.1 raw.groups found.0)) [
          | inr (e, g) ↦ absurd (ground (arith, f, g))
          | inl (groups, g) ↦ rewritten found groups f g
        ]
      ]
    where
      rewritten :
          (found : List String × List DeviceConfig) (groups : List GroupConfig)
          → resolve_devices new_v5 raw.defaults raw.devices [] ≡ ok found
          → resolve_groups found.1 raw.groups found.0 ≡ ok groups
          → resolve_config new_v5 (rewritten_of others raw resolved) ≡ ok resolved
      rewritten found groups f g =
          let res : Resolved = record { devices = found.1; groups = groups } in
          let whole : resolve_config new_v5 raw ≡ ok res = ground (arith, f, g) in
          let again : resolve_config new_v5 (rewritten_of others raw res) ≡ ok res =
            ground (arith, resolve_devices_again raw.defaults others raw.devices [] found f, g) in
          subst (λ r. resolve_config new_v5 (rewritten_of others raw r) ≡ ok r)
            (ok_injective (sym whole ∙ h)) again
