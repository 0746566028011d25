-- ===== src/Tests/Upkeep.antt =====
-- The upkeep of tasks at work.
use sismatic.Common.{◌≡◌, true, false, none, List, [], ◌∷◌, select}
use sismatic.Common.Dict
use sismatic.Upkeep.Tasks.{Member, Tasks, apply_relay, apply_keepalive}
use sismatic.Upkeep.Following.{runs_for, last_uuid, apply_relay_running}

abbrev members : List Member
members =
    record { id = "left"; uuid = "u1"; eager = true }
    ∷ record { id = "right"; uuid = "u2"; eager = false }
    ∷ []

-- A task that runs for a device that has been replaced since.
abbrev old_tasks : Tasks
old_tasks = record {
  running = Dict.insert "left" (record { device = "u0"; token = 0 }) Dict.empty;
  next_token = 1;
  canceled = [];
}

apply_relay_running_example :
    (runs_for (Dict.get "left" (apply_relay members old_tasks).0.running)
      ≡ last_uuid "left" members none)
    × (runs_for (Dict.get "left" (apply_keepalive members old_tasks).0.running)
        ≡ last_uuid "left" (select (λ d. d.eager) members) none)
apply_relay_running_example = apply_relay_running members old_tasks "left"
