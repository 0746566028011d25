-- ===== src/Upkeep/Tasks.antt =====
-- crates/sismatic-intent-relay/src/relay.rs, `RelayHandle::apply`, and
-- crates/sismatic-core/src/devices/sis_keepalive.rs, `SisKeepalive::apply`, which are the same loops
-- over a different choice of devices. The tokio runtime draws a task's cancellation token; here each
-- start draws the next number. A count of `usize` does not wrap but for the last subtraction.
use sismatic.Common.{
  ℕ, suc, ◌+◌, ◌-◌, ◌%◌, ◌^◌, String, Bool, true, not, none, some, List, [], ◌∷◌, map, select, ◌==◌,
  if◌then◌else◌,
}
use sismatic.Common.Dict
use sismatic.Common.Dict.{Dict}

-- What the loops read of a device.
pub record Member : Type 0 where
  pub id : String
  pub uuid : String
  pub eager : Bool

pub record Task : Type 0 where
  pub device : String
  pub token : ℕ

pub record Tasks : Type 0 where
  pub running : Dict Task
  pub next_token : ℕ
  pub canceled : List ℕ

pub record TaskChange : Type 0 where
  pub started : ℕ
  pub stopped : ℕ
  pub rebound : ℕ
  pub unchanged : ℕ

-- `collect` into a map by id: of two devices with one id the later stays.
unfoldable pub by_id : List Member → Dict String → Dict String
by_id [] wanted = wanted
by_id (device ∷ devices) wanted = by_id devices (Dict.insert device.id device.uuid wanted)

-- Its device is gone, or another one has its id.
abbrev pub is_stale : Dict String → String × Task → Bool
is_stale wanted (id, task) = elim (Dict.get id wanted) [
  | none ↦ true
  | some uuid ↦ not (uuid == task.device)
]

unfoldable pub retire : Dict String → String → Tasks × TaskChange → Tasks × TaskChange
retire wanted id (t, c) = (
  elim (Dict.get id t.running) [
    | none ↦ t
    | some task ↦ record t {
      running = Dict.remove id t.running;
      canceled = task.token ∷ t.canceled;
    }
  ],
  if Dict.contains_key id wanted
      then record c { rebound = c.rebound + 1 }
      else record c { stopped = c.stopped + 1 },
)

unfoldable pub retire_all : Dict String → List String → Tasks × TaskChange → Tasks × TaskChange
retire_all wanted [] s = s
retire_all wanted (id ∷ ids) s = retire_all wanted ids (retire wanted id s)

-- The variables of the second loop: the tasks, the change, and the count `spawned`.
unfoldable pub ensure : String × String → Tasks × TaskChange × ℕ → Tasks × TaskChange × ℕ
ensure (id, uuid) (t, c, spawned) =
    if Dict.contains_key id t.running
    then (t, record c { unchanged = c.unchanged + 1 }, spawned)
    else (
      record t {
        running = Dict.insert id (record { device = uuid; token = t.next_token }) t.running;
        next_token = suc t.next_token;
      },
      c,
      spawned + 1,
    )

unfoldable pub ensure_all : List (String × String) → Tasks × TaskChange × ℕ → Tasks × TaskChange × ℕ
ensure_all [] s = s
ensure_all (entry ∷ entries) s = ensure_all entries (ensure entry s)

-- `spawned - rebound`, modulo 2^64.
abbrev pub finished : Tasks × TaskChange × ℕ → Tasks × TaskChange
finished (t, c, spawned) = (t, record c { started = (spawned + 2 ^ 64 - c.rebound) % 2 ^ 64 })

unfoldable pub follow_wanted : Dict String → Tasks → Tasks × TaskChange
follow_wanted wanted t =
    let stale = map (λ e. e.0) (select (is_stale wanted) t.running.entries) in
    let none_yet : TaskChange = record { started = 0; stopped = 0; rebound = 0; unchanged = 0 } in
    let (kept, c) = retire_all wanted stale (t, none_yet) in
    finished (ensure_all wanted.entries (kept, c, 0))

unfoldable pub apply_relay : List Member → Tasks → Tasks × TaskChange
apply_relay devices t = follow_wanted (by_id devices Dict.empty) t

-- Only the eager devices are kept warm.
unfoldable pub apply_keepalive : List Member → Tasks → Tasks × TaskChange
apply_keepalive devices t = follow_wanted (by_id (select (λ d. d.eager) devices) Dict.empty) t
