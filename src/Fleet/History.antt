-- ===== src/Fleet/History.antt =====
-- The fleet's operations in any order, from the start of the server.
use sismatic.Common.{String, ◌≡◌, map, ok}
use sismatic.Catalog.Listing.{new_catalog}
use sismatic.Reads.Sizes.{Layout}
use sismatic.Fleet.Config.{RawConfig, Resolved}
use sismatic.Fleet.Resolve.{resolve_config}
use sismatic.Fleet.Registry.{build}
use sismatic.Fleet.Summaries.{summarize, summarize_group, device_summary, group_summary}
use sismatic.Fleet.Live.{World, LiveFleet}
use sismatic.Fleet.Inventory.{DeviceWrite, GroupWrite}
use sismatic.Fleet.Operations.{add, replace, remove, add_group, replace_group, remove_group, reset}

-- The wiring of crates/sismatic-server/src/lib.rs: the fleet that a devices file starts.
unfoldable pub start_fleet : RawConfig → Resolved → LiveFleet → LiveFleet
unfolding new_catalog summarize summarize_group build
start_fleet raw resolved f = record f {
  registry = build resolved.devices resolved.groups;
  generation = 0;
  document = raw;
  catalog =
      new_catalog device_summary group_summary (map summarize resolved.devices)
        (map summarize_group resolved.groups);
}

pub data FleetReach (w : World) (l : Layout) : LiveFleet → Type 0 where
  started :
      (raw : RawConfig) (resolved : Resolved) (rest : LiveFleet)
      → resolve_config w.new_v5 raw ≡ ok resolved
      → FleetReach w l (start_fleet raw resolved rest)
  added :
      {f : LiveFleet} (write : DeviceWrite) → FleetReach w l f → FleetReach w l (add w write f).1
  replaced :
      {f : LiveFleet} (id : String) (write : DeviceWrite)
      → FleetReach w l f
      → FleetReach w l (replace w id write f).1
  removed : {f : LiveFleet} (id : String) → FleetReach w l f → FleetReach w l (remove w l id f).1
  added_group :
      {f : LiveFleet} (write : GroupWrite)
      → FleetReach w l f
      → FleetReach w l (add_group w write f).1
  replaced_group :
      {f : LiveFleet} (id : String) (write : GroupWrite)
      → FleetReach w l f
      → FleetReach w l (replace_group w id write f).1
  removed_group :
      {f : LiveFleet} (id : String) → FleetReach w l f → FleetReach w l (remove_group w id f).1
  was_reset : {f : LiveFleet} → FleetReach w l f → FleetReach w l (reset w l f).1
