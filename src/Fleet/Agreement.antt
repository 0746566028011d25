-- ===== src/Fleet/Agreement.antt =====
-- The document, the catalog and the registry of a running fleet agree.
use sismatic.Common.{
  ℕ, String, ◌≡◌, refl, sym, ap, ◌∙◌, subst, Option, none, some, map, eq_iff, arith, Result, ok,
  ok_injective, Result-cases, inl, inr,
}
use sismatic.Common.Dict
use sismatic.Common.Dict.{Dict, get-insert, get-empty}
use sismatic.Catalog.Listing.{MemoryCatalog, replace, new_catalog}
use sismatic.Fleet.Config.{DeviceConfig, RawConfig, Resolved}
use sismatic.Fleet.Resolve.{resolve_config}
use sismatic.Fleet.Registry.{Device, Registry, apply, desired_of, insert_groups, rebuild_groups}
use sismatic.Fleet.Summaries.{
  DeviceSummary, GroupSummary, summarize, summarize_group, device_summary, group_summary,
}
use sismatic.Fleet.Live.{
  World, InventoryRefusal, LiveFleet, amend, persist, list_resolved, apply_locked,
}
use sismatic.Fleet.Rereading.{resolve_config-rewritten, rewritten_of}
use sismatic.Fleet.Ensuring.{kept, replaced, added}
use sismatic.Fleet.Applied.{Applied, apply-Applied}

-- What runs under an id is a device of the identity that is wanted there, and nothing where none is.
abbrev pub Runs : Option DeviceConfig → Option Device → Type 0
Runs none d = d ≡ none
Runs (some c) d = (e : Device) × (d ≡ some e) × (e.config.uuid ≡ c.uuid)

abbrev pub AllRun : Resolved → Registry → Type 0
AllRun resolved r =
    (id : String)
    → Runs (Dict.get id (desired_of resolved.devices Dict.empty)) (Dict.get id r.devices)

-- The groups are those of the configuration, over the devices that run.
abbrev pub GroupsRun : Resolved → Registry → Type 0
GroupsRun resolved r = r.groups ≡ insert_groups r.devices resolved.groups Dict.empty

-- The catalog's listing is of what is resolved.
abbrev pub Lists : Resolved → MemoryCatalog DeviceSummary GroupSummary → Type 0
Lists resolved catalog =
    catalog
    ≡ new_catalog device_summary group_summary (map summarize resolved.devices)
        (map summarize_group resolved.groups)

pub data InStep (w : World) (f : LiveFleet) : Type 0 where
  in_step :
      (resolved : Resolved)
      → resolve_config w.new_v5 f.document ≡ ok resolved
      → Lists resolved f.catalog
      → AllRun resolved f.registry
      → GroupsRun resolved f.registry
      → InStep w f

Applied-Runs :
    (next : ℕ) (want : Option DeviceConfig) (before after : Option Device)
    → Applied next want before after
    → Runs want after
Applied-Runs next none before after gone = gone
Applied-Runs next (some c) (some d) (some _) (kept same) =
    (d, refl, ground (arith, eq_iff d.config.uuid c.uuid))
Applied-Runs next (some c) before (some e) (replaced _ is _ _) = (e, refl, ap (λ x. x.uuid) is)
Applied-Runs next (some c) before none followed = elim followed [ ]
Applied-Runs next (some c) none (some e) (added is _ _) = (e, refl, ap (λ x. x.uuid) is)

apply-AllRun : (resolved : Resolved) (r : Registry) → AllRun resolved (apply resolved r).0
apply-AllRun resolved r id =
    Applied-Runs r.next_handle (Dict.get id (desired_of resolved.devices Dict.empty))
      (Dict.get id r.devices) (Dict.get id (apply resolved r).0.devices)
      (apply-Applied resolved r id)

apply-GroupsRun : (resolved : Resolved) (r : Registry) → GroupsRun resolved (apply resolved r).0
unfolding apply rebuild_groups
apply-GroupsRun resolved r = refl

-- `InStep` reads four parts of the fleet.
pub InStep-same :
    (w : World) (f g : LiveFleet)
    → g.document ≡ f.document
    → g.catalog ≡ f.catalog
    → g.registry ≡ f.registry
    → InStep w f
    → InStep w g
InStep-same w f g d c r (in_step resolved reads lists run groups) =
    in_step resolved (ap (resolve_config w.new_v5) d ∙ reads) (c ∙ lists)
      (subst (AllRun resolved) (sym r) run) (subst (GroupsRun resolved) (sym r) groups)

pub persist-InStep :
    (w : World) (resolved : Resolved) (f : LiveFleet) → InStep w f → InStep w (persist w resolved f)
unfolding persist
persist-InStep w resolved f i =
    InStep-same w f (persist w resolved f) (ground arith) (ground arith) (ground arith) i

-- An application to a fleet whose document and catalog are of what is applied.
pub applied-InStep :
    (w : World) (resolved : Resolved) (f : LiveFleet)
    → resolve_config w.new_v5 f.document ≡ ok resolved
    → InStep w (apply_locked resolved (list_resolved resolved f)).0
unfolding apply_locked list_resolved replace new_catalog
applied-InStep w resolved f reads =
    in_step resolved reads refl (apply-AllRun resolved f.registry)
      (apply-GroupsRun resolved f.registry)

-- An amendment that goes through leaves the fleet in step, whatever the edit was.
pub amend-InStep :
    (w : World) (edit : RawConfig → Result RawConfig InventoryRefusal) (f g : LiveFleet)
    (resolved : Resolved)
    → amend w edit f ≡ ok (resolved, g)
    → InStep w g
unfolding amend
amend-InStep w edit f g resolved h = elim (Result-cases (edit f.document)) [
  | inr (e, p) ↦ absurd (ground (arith, p))
  | inl (raw, p) ↦ elim (Result-cases (resolve_config w.new_v5 raw)) [
    | inr (e, q) ↦ absurd (ground (arith, p, q))
    | inl (res, q) ↦ went_through raw res p q
  ]
]
  where
    went_through :
        (raw : RawConfig) (res : Resolved)
        → edit f.document ≡ ok raw
        → resolve_config w.new_v5 raw ≡ ok res
        → InStep w g
    went_through raw res p q =
        let document = rewritten_of f.document.defaults raw res in
        let listed = list_resolved res (record f { document = document }) in
        let left = persist w res (apply_locked res listed).0 in
        let whole : amend w edit f ≡ ok (res, left) = ground (arith, p, q) in
        subst (InStep w) (ap (λ r. r.1) (ok_injective (sym whole ∙ h))) (
          persist-InStep w res (apply_locked res listed).0 (
            applied-InStep w res (record f { document = document })
              (resolve_config-rewritten w.new_v5 raw f.document.defaults res q)))
