-- ===== src/Fleet/Steps.antt =====
-- Each operation of the fleet leaves its document, its catalog and its registry in step.
use sismatic.Common.{
  suc, String, ◌≡◌, refl, sym, subst, Bool, true, false, Option, none, some, List, [], ◌∷◌, ◌==◌,
  arith, Result, ok, err, Option-cases, inl, inr, if◌then◌else◌,
}
use sismatic.Common.Dict
use sismatic.Common.Dict.{Dict, get-insert, get-empty}
use sismatic.Outbox.Cancel.{cancel_queued, forget_group}
use sismatic.Reads.Sizes.{Layout}
use sismatic.Fleet.Config.{DeviceConfig, RawConfig, Resolved, ConfigError}
use sismatic.Fleet.Resolve.{resolve_config}
use sismatic.Fleet.Registry.{
  Device, Registry, build, insert_all, insert_new, desired_of, rebuild_groups,
}
use sismatic.Fleet.Live.{
  World, InventoryRefusal, LiveFleet, amend, persist, list_resolved, apply_locked,
}
use sismatic.Fleet.Inventory.{
  DeviceWrite, GroupWrite, raw_of_write, raw_of_group_write, summary_of, group_summary_of,
  push_device, push_group, put_device, put_group, drop_device, drop_group, stated_other,
}
use sismatic.Fleet.Operations.{
  Answer, amended, add, replace, remove, add_group, replace_group, remove_group, reset, clean_up,
  forget_removed,
}
use sismatic.Fleet.Agreement.{
  InStep, in_step, Runs, AllRun, InStep-same, persist-InStep, applied-InStep, amend-InStep,
}
use sismatic.Fleet.History.{start_fleet, FleetReach}

insert_all-Runs :
    (configs : List DeviceConfig) (r : Registry) (desired : Dict DeviceConfig) (j : String)
    → Runs (Dict.get j desired) (Dict.get j r.devices)
    → Runs (Dict.get j (desired_of configs desired)) (Dict.get j (insert_all configs r).devices)
unfolding insert_all desired_of insert_new
insert_all-Runs [] r desired j h = h
insert_all-Runs (c ∷ configs) r desired j h =
    insert_all-Runs configs (insert_new c.id c r) (Dict.insert c.id c desired) j (
      subst (λ x. Runs x (Dict.get j (insert_new c.id c r).devices))
        (sym (get-insert c.id j c desired))
        (subst (Runs (if c.id == j then some c else Dict.get j desired))
          (sym (get-insert c.id j fresh r.devices)) (either (c.id == j))))
  where
    fresh : Device
    fresh = record { config = c; handle = suc r.next_handle; auto_disabled = r.next_handle }

    either :
        (b : Bool)
        → Runs
            (if b then some c else Dict.get j desired)
            (if b then some fresh else Dict.get j r.devices)
    either true = (fresh, refl, refl)
    either false = h

build-AllRun : (resolved : Resolved) → AllRun resolved (build resolved.devices resolved.groups)
unfolding build rebuild_groups
build-AllRun resolved j =
    insert_all-Runs resolved.devices
      (record { devices = Dict.empty; groups = Dict.empty; next_handle = 0 }) Dict.empty j
      (nothing (Dict.get j Dict.empty) (get-empty j))
  where
    nothing : (d : Option DeviceConfig) → d ≡ none → Runs d (Dict.get {V = Device} j Dict.empty)
    nothing none e = get-empty j
    nothing (some c) e = absurd (cc)

amended-InStep {ℓ} :
    {A : Type ℓ} (w : World) (f : LiveFleet) (edit : RawConfig → Result RawConfig InventoryRefusal)
    (next : Resolved → LiveFleet → Answer A)
    → InStep w f
    → ((resolved : Resolved) (g : LiveFleet) → InStep w g → InStep w (next resolved g).1)
    → InStep w (amended f (amend w edit f) next).1
amended-InStep w f edit next i goes_on = by_result (amend w edit f) refl
  where
    by_result :
        (m : Result (Resolved × LiveFleet) InventoryRefusal)
        → amend w edit f ≡ m
        → InStep w (amended f m next).1
    by_result (err e) h = i
    by_result (ok (resolved, g)) h = goes_on resolved g (amend-InStep w edit f g resolved h)

clean_up-InStep :
    (w : World) (l : Layout) (id : String) (f : LiveFleet)
    → InStep w f
    → InStep w (clean_up l id f).1
unfolding clean_up
clean_up-InStep w l id f i =
    InStep-same w f (clean_up l id f).1 (ground arith) (ground arith) (ground arith) i

forget_removed-InStep :
    (w : World) (l : Layout) (ids : List String) (f : LiveFleet)
    → InStep w f
    → InStep w (forget_removed l ids f)
unfolding forget_removed
forget_removed-InStep w l [] f i = i
forget_removed-InStep w l (id ∷ ids) f i =
    let canceled = cancel_queued id "the device was removed by an inventory reset" f.outbox in
    let g : LiveFleet = record f { outbox = canceled.0 } in
    forget_removed-InStep w l ids (clean_up l id g).1
      (clean_up-InStep w l id g (InStep-same w f g refl refl refl i))

reset-InStep : (w : World) (l : Layout) (f : LiveFleet) → InStep w f → InStep w (reset w l f).1
unfolding reset
reset-InStep w l f i = by_file (w.load_raw f.config_path) refl
  where
    by_resolved :
        (raw : RawConfig) (m : Result Resolved ConfigError)
        → w.load_raw f.config_path ≡ ok raw
        → resolve_config w.new_v5 raw ≡ m
        → InStep w (reset w l f).1
    by_resolved raw (err e) p q =
        let same : (reset w l f).1 ≡ f = ground (arith, p, q) in subst (InStep w) (sym same) i
    by_resolved raw (ok resolved) p q =
        let g : LiveFleet = record f { document = raw } in
        let applied = apply_locked resolved (list_resolved resolved g) in
        let left = persist w resolved (forget_removed l applied.1.removed applied.0) in
        let is : (reset w l f).1 ≡ left = ground (arith, p, q) in
        subst (InStep w) (sym is) (
          persist-InStep w resolved (forget_removed l applied.1.removed applied.0)
            (forget_removed-InStep w l applied.1.removed applied.0 (applied-InStep w resolved g q)))

    by_file :
        (m : Result RawConfig ConfigError) → w.load_raw f.config_path ≡ m → InStep w (reset w l f).1
    by_file (err e) p =
        let same : (reset w l f).1 ≡ f = ground (arith, p) in subst (InStep w) (sym same) i
    by_file (ok raw) p = by_resolved raw (resolve_config w.new_v5 raw) p refl

module _ (w : World) where
  add-InStep : (write : DeviceWrite) (f : LiveFleet) → InStep w f → InStep w (add w write f).1
  unfolding add
  add-InStep write f i = elim (Option-cases write.id) [
    | inl e ↦ rw e i
    | inr (id, e) ↦ rw e (
        amended-InStep w f (push_device (raw_of_write id write))
          (λ resolved g. (summary_of resolved id, g)) i (λ resolved g j. j))
  ]

  add_group-InStep :
      (write : GroupWrite) (f : LiveFleet) → InStep w f → InStep w (add_group w write f).1
  unfolding add_group
  add_group-InStep write f i = elim (Option-cases write.id) [
    | inl e ↦ rw e i
    | inr (id, e) ↦ rw e (
        amended-InStep w f (push_group (raw_of_group_write id write))
          (λ resolved g. (group_summary_of resolved id, g)) i (λ resolved g j. j))
  ]

  replace-InStep :
      (id : String) (write : DeviceWrite) (f : LiveFleet)
      → InStep w f
      → InStep w (replace w id write f).1
  unfolding replace
  replace-InStep id write f i = elim (Option-cases (stated_other write.id id)) [
    | inr (stated, e) ↦ rw (e, replace) i
    | inl e ↦
        rw (e, replace)
          (amended-InStep w f (put_device id (raw_of_write id write))
            (λ resolved g. (summary_of resolved id, g)) i (λ resolved g j. j))
  ]

  replace_group-InStep :
      (id : String) (write : GroupWrite) (f : LiveFleet)
      → InStep w f
      → InStep w (replace_group w id write f).1
  unfolding replace_group
  replace_group-InStep id write f i = elim (Option-cases (stated_other write.id id)) [
    | inr (stated, e) ↦ rw (e, replace_group) i
    | inl e ↦
        rw (e, replace_group)
          (amended-InStep w f (put_group id (raw_of_group_write id write))
            (λ resolved g. (group_summary_of resolved id, g)) i (λ resolved g j. j))
  ]

  remove_group-InStep :
      (id : String) (f : LiveFleet) → InStep w f → InStep w (remove_group w id f).1
  unfolding remove_group
  remove_group-InStep id f i =
      amended-InStep w f (drop_group id)
        (λ resolved g. (ok tt, record g { outbox = (forget_group id g.outbox).0 })) i
        (λ resolved g j.
          InStep-same w g (record g { outbox = (forget_group id g.outbox).0 }) refl refl refl j)

  remove-InStep :
      (l : Layout) (id : String) (f : LiveFleet) → InStep w f → InStep w (remove w l id f).1
  unfolding remove
  remove-InStep l id f i = amended-InStep w f (drop_device id) _ i (λ resolved g j.
      let canceled = cancel_queued id "the device was removed from the fleet" g.outbox in
      let h : LiveFleet = record g { outbox = canceled.0 } in
      clean_up-InStep w l id h (InStep-same w g h refl refl refl j))

start_fleet-InStep :
    (w : World) (raw : RawConfig) (resolved : Resolved) (rest : LiveFleet)
    → resolve_config w.new_v5 raw ≡ ok resolved
    → InStep w (start_fleet raw resolved rest)
unfolding start_fleet build rebuild_groups
start_fleet-InStep w raw resolved rest reads =
    in_step resolved reads refl (build-AllRun resolved) refl

-- Whatever operations a running fleet has gone through, in any order and whether they went through
-- or were refused, its document resolves, and to one resolved set: the catalog lists the summaries
-- of just that set in the order of ids, a device runs under an id just where the set has one, with
-- the identity that the set gives it, and the groups are the set's over the running devices.
pub FleetReach-InStep : (w : World) (l : Layout) {f : LiveFleet} → FleetReach w l f → InStep w f
FleetReach-InStep w l (FleetReach.started raw resolved rest reads) =
    start_fleet-InStep w raw resolved rest reads
FleetReach-InStep w l (FleetReach.added write r) = add-InStep w write _ (FleetReach-InStep w l r)
FleetReach-InStep w l (FleetReach.replaced id write r) =
    replace-InStep w id write _ (FleetReach-InStep w l r)
FleetReach-InStep w l (FleetReach.removed id r) = remove-InStep w l id _ (FleetReach-InStep w l r)
FleetReach-InStep w l (FleetReach.added_group write r) =
    add_group-InStep w write _ (FleetReach-InStep w l r)
FleetReach-InStep w l (FleetReach.replaced_group id write r) =
    replace_group-InStep w id write _ (FleetReach-InStep w l r)
FleetReach-InStep w l (FleetReach.removed_group id r) =
    remove_group-InStep w id _ (FleetReach-InStep w l r)
FleetReach-InStep w l (FleetReach.was_reset r) = reset-InStep w l _ (FleetReach-InStep w l r)
