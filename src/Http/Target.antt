-- ===== src/Http/Target.antt =====
-- crates/sismatic-http-api/src/handlers/target.rs: whether an id is a device's or a group's.
use Prim.Native.String.{◌++◌ as ◌<>◌}
use sismatic.Common.{String, Option, none, some, List, Result, ok, err}
use sismatic.Catalog.Listing.{MemoryCatalog, device, group}
use sismatic.Fleet.Summaries.{DeviceSummary, GroupSummary, device_summary, group_summary}
use sismatic.Http.Failure.{ApiFailure, not_found}

abbrev pub Listed : Type 0
Listed = MemoryCatalog DeviceSummary GroupSummary

-- The members, or a failure that says whether the id is a device's.
unfoldable pub group_members : Listed → String → String → String → Result (List String) ApiFailure
unfolding device group
group_members catalog id scope device_route = elim (group device_summary group_summary id catalog) [
  | some g ↦ ok g.members
  | none ↦ err (
      not_found (elim (device device_summary group_summary id catalog) [
        | some _ ↦
            "'" <> id <> "' is a device, not a device group; try /v1/" <> scope <> "/devices/" <> id
            <> "/" <> device_route
        | none ↦ "no device group '" <> id <> "' is configured"
      ]))
]

unfoldable pub reject_group : Listed → String → String → String → Option ApiFailure
unfolding group
reject_group catalog id scope group_route = elim (group device_summary group_summary id catalog) [
  | some _ ↦ some (
      not_found (
        "'" <> id <> "' is a device group, not a device; try /v1/" <> scope <> "/groups/" <> id
        <> "/" <> group_route))
  | none ↦ none
]
