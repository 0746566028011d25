-- ===== src/Fleet/Growth.antt =====
-- A device that is added leaves the others as they are.
use sismatic.Common.{
  ℕ, String, ◌≡◌, refl, sym, ap, ◌∙◌, subst, false, Option, none, some, List, [], ◌∷◌, ◌++◌, ◌==◌,
  eq_iff, arith, contains, Result, ok, err, ok_injective, Result-cases, Bool-cases, inl, inr,
  if◌then◌else◌,
}
use sismatic.Common.Dict
use sismatic.Common.Dict.{Dict, get-insert}
use sismatic.Fleet.Config.{Defaults, RawDevice, RawConfig, DeviceConfig, Resolved, ConfigError}
use sismatic.Fleet.Resolve.{resolve, resolve_devices, resolve_groups, resolve_config}
use sismatic.Fleet.Registry.{Device, Registry, desired_of, apply}
use sismatic.Fleet.Live.{World, LiveFleet, amend, apply_locked, list_resolved, persist}
use sismatic.Fleet.Inventory.{DeviceWrite, push_device, raw_of_write}
use sismatic.Fleet.Operations.{add}
use sismatic.Fleet.RoundTrip.{resolve-id}
use sismatic.Fleet.Rereading.{rewritten_of}
use sismatic.Fleet.Ensuring.{kept, replaced}
use sismatic.Fleet.Applied.{Applied, apply-Applied}
use sismatic.Fleet.Agreement.{Runs, AllRun, InStep, in_step}

module _ (new_v5 : List ℕ → List ℕ → String) where
  -- What is resolved of a longer list begins with what is resolved of the shorter.
  resolve_devices-append :
      (defaults : Defaults) (raws : List RawDevice) (raw : RawDevice) (seen : List String)
      (found more : List String × List DeviceConfig)
      → resolve_devices new_v5 defaults raws seen ≡ ok found
      → resolve_devices new_v5 defaults (raws ++ raw ∷ []) seen ≡ ok more
      → (c : DeviceConfig) × (resolve new_v5 defaults raw ≡ ok c) × (more.1 ≡ found.1 ++ c ∷ [])
  unfolding resolve_devices
  resolve_devices-append defaults [] raw seen found more h k =
      elim (Bool-cases (contains raw.id seen)) [
        | inl again ↦ absurd (ground (arith, again))
        | inr new ↦ elim (Result-cases (resolve new_v5 defaults raw)) [
          | inr (e, f) ↦ absurd (ground (arith, new, f))
          | inl (c, f) ↦
              let one : resolve_devices new_v5 defaults (raw ∷ []) seen
                  ≡ ok (raw.id ∷ seen, c ∷ []) =
                ground (arith, new, f) in
              let none_yet : (seen, []) ≡ found = ok_injective h in
              (
                c,
                f,
                sym (ap (λ r. r.1) (ok_injective (sym one ∙ k))) ∙ ap (λ r. r.1 ++ c ∷ []) none_yet,
              )
        ]
      ]
  resolve_devices-append defaults (r ∷ raws) raw seen found more h k =
      elim (Bool-cases (contains r.id seen)) [
        | inl again ↦ absurd (ground (arith, again))
        | inr new ↦ elim (Result-cases (resolve new_v5 defaults r)) [
          | inr (e, f) ↦ absurd (ground (arith, new, f))
          | inl (d, f) ↦ elim (Result-cases (resolve_devices new_v5 defaults raws (r.id ∷ seen))) [
            | inr (e, g) ↦ absurd (ground (arith, new, f, g))
            | inl (short, g) ↦
                elim (Result-cases
                  (resolve_devices new_v5 defaults (raws ++ raw ∷ []) (r.id ∷ seen))) [
                    | inr (e, l) ↦ absurd (ground (arith, new, f, l))
                    | inl (long, l) ↦
                        let (c, is, rest) =
                          resolve_devices-append defaults raws raw (r.id ∷ seen) short long g l in
                        let whole : resolve_devices new_v5 defaults (r ∷ raws) seen
                            ≡ ok (short.0, d ∷ short.1) =
                          ground (arith, new, f, g) in
                        let wider : resolve_devices new_v5 defaults (r ∷ raws ++ raw ∷ []) seen
                            ≡ ok (long.0, d ∷ long.1) =
                          ground (arith, new, f, l) in
                        (
                          c,
                          is,
                          sym (ap (λ x. x.1) (ok_injective (sym wider ∙ k)))
                              ∙ ap (λ x. d ∷ x) rest
                              ∙ ap (λ x. x.1 ++ c ∷ []) (ok_injective (sym whole ∙ h)),
                        )
                  ]
          ]
        ]
      ]

desired_of-append :
    (configs : List DeviceConfig) (c : DeviceConfig) (desired : Dict DeviceConfig)
    → desired_of (configs ++ c ∷ []) desired ≡ Dict.insert c.id c (desired_of configs desired)
unfolding desired_of
desired_of-append [] c desired = refl
desired_of-append (d ∷ configs) c desired = desired_of-append configs c (Dict.insert d.id d desired)

-- A device that runs as it is wanted stays the one it is.
Applied-Runs-same :
    (next : ℕ) (want : Option DeviceConfig) (before after : Option Device)
    → Runs want before
    → Applied next want before after
    → after ≡ before
Applied-Runs-same next none before after runs gone = gone ∙ sym runs
Applied-Runs-same next (some c) (some d) (some _) runs (kept same) = refl
Applied-Runs-same next (some c) (some d) (some e) (d', is, same) (replaced other _ _ _) =
    absurd (ground (arith, eq_iff d.config.uuid c.uuid, is))
Applied-Runs-same next (some c) none after (d', is, same) _ = absurd (cc)
Applied-Runs-same next (some c) (some d) none runs followed = elim followed [ ]

-- Where the configuration of an id is the same before and after an amendment, its device is too.
amend_keeps :
    (res : Resolved) (r : Registry) (id : String) (old : Resolved)
    → AllRun old r
    → Dict.get id (desired_of res.devices Dict.empty)
      ≡ Dict.get id (desired_of old.devices Dict.empty)
    → Dict.get id (apply res r).0.devices ≡ Dict.get id r.devices
amend_keeps res r id old runs same =
    Applied-Runs-same r.next_handle (Dict.get id (desired_of res.devices Dict.empty))
      (Dict.get id r.devices) (Dict.get id (apply res r).0.devices)
      (subst (λ want. Runs want (Dict.get id r.devices)) (sym same) (runs id))
      (apply-Applied res r id)

resolved_devices_lem :
    (new_v5 : List ℕ → List ℕ → String) (raw : RawConfig) (res : Resolved)
    → resolve_config new_v5 raw ≡ ok res
    → (found : List String × List DeviceConfig) × (resolve_devices new_v5 raw.defaults raw.devices
          []
        ≡ ok found)
      × (res.devices ≡ found.1)
unfolding resolve_config
resolved_devices_lem new_v5 raw res h =
    elim (Result-cases (resolve_devices new_v5 raw.defaults raw.devices [])) [
      | inr (e, f) ↦ absurd (ground (arith, f))
      | inl (found, f) ↦ elim (Result-cases (resolve_groups found.1 raw.groups found.0)) [
        | inr (e, g) ↦ absurd (ground (arith, f, g))
        | inl (groups, g) ↦
            let res' : Resolved = record { devices = found.1; groups = groups } in
            let whole : resolve_config new_v5 raw ≡ ok res' = ground (arith, f, g) in
            (found, f, sym (ap (λ r. r.devices) (ok_injective (sym whole ∙ h))))
      ]
    ]

-- Under every other id the same is wanted after a device is pushed.
pushed_elsewhere :
    (new_v5 : List ℕ → List ℕ → String) (raw : RawConfig) (device : RawDevice) (old res : Resolved)
    (id : String)
    → resolve_config new_v5 raw ≡ ok old
    → resolve_config new_v5 (record raw { devices = raw.devices ++ device ∷ [] }) ≡ ok res
    → (device.id == id) ≡ false
    → Dict.get id (desired_of res.devices Dict.empty)
      ≡ Dict.get id (desired_of old.devices Dict.empty)
pushed_elsewhere new_v5 raw device old res id h k other =
    let (found, f, was) = resolved_devices_lem new_v5 raw old h in
    let (more, g, is) =
      resolved_devices_lem new_v5 (record raw { devices = raw.devices ++ device ∷ [] }) res k in
    let (c, r, longer) =
      resolve_devices-append new_v5 raw.defaults raw.devices device [] found more f g in
    let wanted : desired_of res.devices Dict.empty
        ≡ Dict.insert c.id c (desired_of old.devices Dict.empty) =
      ap (λ cs. desired_of cs Dict.empty) (is ∙ longer ∙ ap (λ cs. cs ++ c ∷ []) (sym was))
      ∙ desired_of-append old.devices c Dict.empty in
    let named = resolve-id new_v5 raw.defaults device c r in
    ap (Dict.get id) wanted
    ∙ get-insert c.id id c (desired_of old.devices Dict.empty)
    ∙ ap (λ b. if b then some c else Dict.get id (desired_of old.devices Dict.empty))
        (ap (λ x. x == id) named ∙ other)

persist-registry :
    (w : World) (res : Resolved) (f : LiveFleet) (document : RawConfig)
    → (persist w res
        (apply_locked res (list_resolved res (record f { document = document }))).0).registry
      ≡ (apply res f.registry).0
unfolding persist apply_locked list_resolved
persist-registry w res f document = ground arith

-- In a fleet in step, whether the addition of a device goes through or is refused, what runs under
-- any id but the added one's is what ran before: the same device, with its connection and its
-- record of refusals, or nothing.
pub add-registry_keeps :
    (w : World) (write : DeviceWrite) (f : LiveFleet) (new id : String)
    → InStep w f
    → write.id ≡ some new
    → (new == id) ≡ false
    → Dict.get id (add w write f).1.registry.devices ≡ Dict.get id f.registry.devices
unfolding add amend push_device
add-registry_keeps w write f new id (in_step old reads _ runs _) named other =
    by_result (resolve_config w.new_v5 pushed) refl
  where
    pushed : RawConfig
    pushed = record f.document { devices = f.document.devices ++ raw_of_write new write ∷ [] }

    by_result :
        (m : Result Resolved ConfigError)
        → resolve_config w.new_v5 pushed ≡ m
        → Dict.get id (add w write f).1.registry.devices ≡ Dict.get id f.registry.devices
    by_result (err e) k =
        let same : (add w write f).1 ≡ f = ground (arith, named, k) in
        ap (λ g. Dict.get id g.registry.devices) same
    by_result (ok res) k =
        let document : RawConfig = rewritten_of f.document.defaults pushed res in
        let left : LiveFleet =
          persist w res
            (apply_locked res (list_resolved res (record f { document = document }))).0 in
        let went : (add w write f).1 ≡ left = ground (arith, named, k) in
        ap (λ g. Dict.get id g.registry.devices) went
        ∙ ap (λ r. Dict.get id r.devices) (persist-registry w res f document)
        ∙ amend_keeps res f.registry id old runs
            (pushed_elsewhere w.new_v5 f.document (raw_of_write new write) old res id reads k other)
