-- ===== src/Fleet/Operations.antt =====
-- crates/sismatic-server/src/fleet.rs: `LiveInventory for LiveFleet`, each operation whole, with the
-- outbox and the read store that a removal reaches. The log lines are left out.
use Prim.Native.String.{◌++◌ as ◌<>◌}
use sismatic.Common.{
  ℕ, String, Option, none, some, List, [], ◌∷◌, map, select, Result, ok, err, if◌then◌else◌,
}
use sismatic.Common.Dict
use sismatic.Common.Dict.{Dict}
use sismatic.Catalog.Listing.{Summary, sort_by_id}
use sismatic.Outbox.Cancel.{cancel_queued, forget_group}
use sismatic.Reads.Sizes.{Layout}
use sismatic.Reads.State.{forget_device}
use sismatic.Devices.AutoDisabled.{AutoDisabledField}
use sismatic.Fleet.Config.{DeviceConfig, Resolved}
use sismatic.Fleet.Resolve.{resolve_config}
use sismatic.Fleet.Registry.{Device}
use sismatic.Fleet.Export.{ExportQuery, export_document}
use sismatic.Fleet.Summaries.{DeviceSummary, GroupSummary, summarize}
use sismatic.Fleet.Live.{
  World, InventoryRefusal, malformed, source, LiveFleet, amend, refusal_of, error_text, persist,
  apply_locked, list_resolved,
}
use sismatic.Fleet.Inventory.{
  DeviceWrite, GroupWrite, Removed, raw_of_write, raw_of_group_write, summary_of, group_summary_of,
  push_device, push_group, put_device, put_group, drop_device, drop_group, stated_other,
}

abbrev pub Answer {ℓ} : Type ℓ → Type ℓ
Answer A = Result A InventoryRefusal × LiveFleet

-- What follows an amendment that went through.
abbrev pub amended {ℓ} :
    {A : Type ℓ}
    → LiveFleet
    → Result (Resolved × LiveFleet) InventoryRefusal
    → (Resolved → LiveFleet → Answer A)
    → Answer A
amended f (err refusal) next = (err refusal, f)
amended f (ok (resolved, g)) next = next resolved g

-- The history of a device is dropped where the server is told to clean up.
unfoldable pub clean_up : Layout → String → LiveFleet → Option ℕ × LiveFleet
unfolding forget_device
clean_up l id f =
    if f.cleanup_on_remove
    then (some (forget_device l id f.store).1, record f { store = (forget_device l id f.store).0 })
    else (none, f)

-- The loop over the devices that a reset removed.
unfoldable pub forget_removed : Layout → List String → LiveFleet → LiveFleet
unfolding cancel_queued clean_up
forget_removed l [] f = f
forget_removed l (id ∷ ids) f =
    let canceled = cancel_queued id "the device was removed by an inventory reset" f.outbox in
    forget_removed l ids (clean_up l id (record f { outbox = canceled.0 })).1

-- The fields that a device has refused too often, by the record that its number stands for.
unfoldable pub inferred_fields : (ℕ → List AutoDisabledField) → Device → List String
unfolding select
inferred_fields snapshots d =
    map (λ field. field.name) (select (λ field. field.disabled) (snapshots d.auto_disabled))

module _ (w : World) where
  unfoldable pub add : DeviceWrite → LiveFleet → Answer DeviceSummary
  unfolding amend push_device raw_of_write summary_of
  add write f = elim write.id [
    | none ↦ (err (malformed "an added device must state an `id`; the URL does not name one"), f)
    | some id ↦
        amended f (amend w (push_device (raw_of_write id write)) f)
          (λ resolved g. (summary_of resolved id, g))
  ]

  unfoldable pub replace : String → DeviceWrite → LiveFleet → Answer DeviceSummary
  unfolding amend put_device raw_of_write summary_of
  replace id write f = elim (stated_other write.id id) [
    | some stated ↦ (
      err (
          malformed (
            "the body names device '" <> stated <> "' and the path names '" <> id
            <> "'; a replace states the id once")),
      f,
    )
    | none ↦
        amended f (amend w (put_device id (raw_of_write id write)) f)
          (λ resolved g. (summary_of resolved id, g))
  ]

  unfoldable pub add_group : GroupWrite → LiveFleet → Answer GroupSummary
  unfolding amend push_group raw_of_group_write group_summary_of
  add_group write f = elim write.id [
    | none ↦ (err (malformed "an added group must state an `id`; the URL does not name one"), f)
    | some id ↦
        amended f (amend w (push_group (raw_of_group_write id write)) f)
          (λ resolved g. (group_summary_of resolved id, g))
  ]

  unfoldable pub replace_group : String → GroupWrite → LiveFleet → Answer GroupSummary
  unfolding amend put_group raw_of_group_write group_summary_of
  replace_group id write f = elim (stated_other write.id id) [
    | some stated ↦ (
      err (
          malformed (
            "the body names group '" <> stated <> "' and the path names '" <> id
            <> "'; a replace states the id once")),
      f,
    )
    | none ↦
        amended f (amend w (put_group id (raw_of_group_write id write)) f)
          (λ resolved g. (group_summary_of resolved id, g))
  ]

  unfoldable pub remove_group : String → LiveFleet → Result {0, 0} Unit InventoryRefusal × LiveFleet
  unfolding amend drop_group forget_group
  remove_group id f =
      amended f (amend w (drop_group id) f)
        (λ resolved g. (ok tt, record g { outbox = (forget_group id g.outbox).0 }))

  unfoldable pub remove : Layout → String → LiveFleet → Answer Removed
  unfolding amend drop_device cancel_queued clean_up
  remove l id f = amended f (amend w (drop_device id) f) (λ resolved g.
      let canceled = cancel_queued id "the device was removed from the fleet" g.outbox in
      let cleaned = clean_up l id (record g { outbox = canceled.0 }) in
      (
        ok (record { device = id; writes_canceled = canceled.1; reads_dropped = cleaned.0 }),
        cleaned.1,
      ))

  unfoldable pub reset : Layout → LiveFleet → Answer (List DeviceSummary)
  unfolding resolve_config refusal_of error_text list_resolved apply_locked forget_removed persist
  reset l f = elim (w.load_raw f.config_path) [
    | err e ↦ (err (source ("reading " <> f.config_path <> ": " <> error_text e)), f)
    | ok reloaded ↦ elim (resolve_config w.new_v5 reloaded) [
      | err e ↦ (err (refusal_of e), f)
      | ok resolved ↦
          let listed = list_resolved resolved (record f { document = reloaded }) in
          let applied = apply_locked resolved listed in
          (
            ok (map summarize resolved.devices),
            persist w resolved (forget_removed l applied.1.removed applied.0),
          )
    ]
  ]

  unfoldable pub export :
      (ℕ → List AutoDisabledField) → ExportQuery → LiveFleet → Result String InventoryRefusal
  unfolding sort_by_id inferred_fields resolve_config refusal_of export_document
  export snapshots query f =
      let running = Dict.values f.registry.devices in
      let by_id : Summary DeviceConfig = record { id = λ c. c.id } in
      let devices = sort_by_id by_id (map (λ d. d.config) running) in
      let promoted = promote running Dict.empty in
      elim (resolve_config w.new_v5 f.document) [
        | err e ↦ err (refusal_of e)
        | ok resolved ↦
            elim (w.print query.format (export_document devices resolved.groups promoted query)) [
              | ok body ↦ ok body
              | err e ↦ err (source ("rendering the devices document: " <> e))
            ]
      ]
    where
      promote : List Device → Dict (List String) → Dict (List String)
      promote [] promoted = promoted
      promote (d ∷ ds) promoted =
          promote ds (Dict.insert d.config.id (inferred_fields snapshots d) promoted)
