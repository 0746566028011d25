-- ===== src/Tests/Catalog.antt =====
-- The catalog at work, on summaries that are ids with a host.
use sismatic.Common.{String, ◌≡◌, List, [], ◌∷◌}
use sismatic.Catalog.Listing.{Summary, MemoryCatalog, replace, device, group, find_by_id}
use sismatic.Catalog.Lookup.{device-replace}

abbrev by_first : Summary (String × String)
by_first = record { id = λ s. s.0 }

abbrev hosts : List (String × String)
hosts = ("right", "10.0.0.2") ∷ ("left", "10.0.0.1") ∷ []

abbrev empty_catalog : MemoryCatalog (String × String) (String × String)
empty_catalog = record { devices = []; groups = [] }

device-replace_example :
    (device by_first by_first "left" (replace by_first by_first hosts [] empty_catalog)
      ≡ find_by_id by_first "left" hosts)
    × (group by_first by_first "left" (replace by_first by_first hosts [] empty_catalog)
        ≡ find_by_id by_first "left" [])
device-replace_example = device-replace by_first by_first hosts [] empty_catalog "left"
