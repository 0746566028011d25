-- ===== src/Tests/Sync.antt =====
-- The polling loops' theorems at work.
use sismatic.Common.{◌≡◌, refl, none, some, List, [], ◌∷◌, contains}
use sismatic.Common.Dict
use sismatic.Common.Dict.{Dict}
use sismatic.Sync.Pairs.{Key, get2, insert2}
use sismatic.Sync.Driver.{
  FieldSchedule, Device, Loops, wanted_loops, as_wanted, reconcile_loops, want_fields, want_field,
  want_on_devices, want_on,
}
use sismatic.Sync.Wanted.{AllowedBy, wanted_loops-AllAllowed}
use sismatic.Sync.Convergence.{reconcile_loops_converges, reconcile_loops_keeps}
use sismatic.Sync.Health.{up, reached, failed, gated, refused, polled, last_word, told, polled_lem}

abbrev schedule : List FieldSchedule
schedule =
    record { name = "STATE"; interval = some 5 } ∷ record { name = "NAME"; interval = none } ∷ []

abbrev fleet : Dict Device
fleet =
    Dict.insert "left" (record { uuid = "u1"; disabled_fields = [] })
      (Dict.insert "right" (record { uuid = "u2"; disabled_fields = "STATE" ∷ [] }) Dict.empty)

abbrev idle_loops : Loops
idle_loops = record { running = Dict.empty; next_token = 0; canceled = [] }

abbrev polling : Loops
polling = (reconcile_loops schedule fleet idle_loops).0

abbrev left_state : Key
left_state = ("STATE", "left")

left_wanted :
    get2 left_state (wanted_loops schedule fleet).0 ≡ some (record { interval = 5; device = "u1" })
unfolding wanted_loops want_fields want_field want_on_devices want_on get2 insert2 contains Dict.get
    Dict.insert Dict.update
left_wanted = refl

wanted_loops-AllAllowed_example :
    AllowedBy fleet.entries left_state (record { interval = 5; device = "u1" })
wanted_loops-AllAllowed_example =
    wanted_loops-AllAllowed schedule fleet left_state (record { interval = 5; device = "u1" })
      left_wanted

reconcile_loops_converges_example :
    as_wanted (get2 left_state polling.running) ≡ get2 left_state (wanted_loops schedule fleet).0
reconcile_loops_converges_example = reconcile_loops_converges schedule fleet idle_loops left_state

reconcile_loops_keeps_example :
    get2 left_state (reconcile_loops schedule fleet polling).0.running
    ≡ get2 left_state polling.running
reconcile_loops_keeps_example = reconcile_loops_keeps schedule fleet polling left_state left_polled
  where
    left_polled :
        as_wanted (get2 left_state polling.running)
        ≡ get2 left_state (wanted_loops schedule fleet).0
    left_polled = reconcile_loops_converges schedule fleet idle_loops left_state

polled_lem_example :
    ((polled up (failed ∷ refused ∷ reached ∷ gated ∷ [])).0
      ≡ last_word up (failed ∷ refused ∷ reached ∷ gated ∷ []))
    × (told up (polled up (failed ∷ refused ∷ reached ∷ gated ∷ [])).1
        ≡ (polled up (failed ∷ refused ∷ reached ∷ gated ∷ [])).0)
polled_lem_example = polled_lem up (failed ∷ refused ∷ reached ∷ gated ∷ [])
