-- ===== src/Sync/Driver.antt =====
-- crates/sismatic-sync/src/driver.rs: the loops that a schedule and a fleet want, and the step that
-- makes those that run the ones that are wanted. A running loop is known by its cancellation token,
-- which the tokio runtime draws; here each start draws the next number.
use sismatic.Common.{
  ℕ, suc, ◌+◌, String, Bool, ◌&&◌, Option, none, some, List, [], ◌∷◌, ◌++◌, ◌==◌, eqb, contains,
  if◌then◌else◌,
}
use sismatic.Common.Dict
use sismatic.Common.Dict.{Dict}
use sismatic.Sync.Pairs.{Key, get2, insert2, remove2, keys2}

pub record FieldSchedule : Type 0 where
  pub name : String
  pub interval : Option ℕ

-- What the driver reads of a device's configuration.
pub record Device : Type 0 where
  pub uuid : String
  pub disabled_fields : List String

pub record Wanted : Type 0 where
  pub interval : ℕ
  pub device : String

pub record Running : Type 0 where
  pub interval : ℕ
  pub device : String
  pub token : ℕ

pub record Change : Type 0 where
  pub started : ℕ
  pub stopped : ℕ
  pub retimed : ℕ
  pub rebound : ℕ
  pub declined : ℕ

unfoldable pub is_nothing : Change → Bool
is_nothing c = eqb c.started 0 && (eqb c.stopped 0 && (eqb c.retimed 0 && eqb c.rebound 0))

pub record Loops : Type 0 where
  pub running : Dict (Dict Running)
  pub next_token : ℕ
  pub canceled : List ℕ

pub data Action : Type 0 where
  leave start stop retime rebind : Action

unfoldable pub act : Option Wanted → Option Wanted → Action
act none none = leave
act none (some _) = start
act (some _) none = stop
act (some now) (some next) =
    if now.device == next.device
    then if eqb now.interval next.interval then leave else retime
    else rebind

-- One turn of the inner loop: the field on one device.
unfoldable pub want_on :
    String → ℕ → String → Device → Dict (Dict Wanted) × ℕ → Dict (Dict Wanted) × ℕ
want_on name interval id device (wanted, declined) =
    if contains name device.disabled_fields then (wanted, declined + 1) else (
      insert2 (name, id) (record { interval = interval; device = device.uuid }) wanted,
      declined,
    )

-- The inner loop, over the fleet's entries.
unfoldable pub want_on_devices :
    String → ℕ → List (String × Device) → Dict (Dict Wanted) × ℕ → Dict (Dict Wanted) × ℕ
want_on_devices name interval [] s = s
want_on_devices name interval ((id, device) ∷ fleet) s =
    want_on_devices name interval fleet (want_on name interval id device s)

-- One turn of the outer loop; a field without an interval is never polled.
unfoldable pub want_field :
    FieldSchedule → List (String × Device) → Dict (Dict Wanted) × ℕ → Dict (Dict Wanted) × ℕ
want_field entry fleet s = elim entry.interval [
  | none ↦ s
  | some interval ↦ want_on_devices entry.name interval fleet s
]

unfoldable pub want_fields :
    List FieldSchedule → List (String × Device) → Dict (Dict Wanted) × ℕ → Dict (Dict Wanted) × ℕ
want_fields [] fleet s = s
want_fields (entry ∷ schedule) fleet s = want_fields schedule fleet (want_field entry fleet s)

unfoldable pub wanted_loops : List FieldSchedule → Dict Device → Dict (Dict Wanted) × ℕ
wanted_loops schedule fleet = want_fields schedule fleet.entries (Dict.empty, 0)

unfoldable pub start_loop : Key → Wanted → Loops → Loops
start_loop key want l = record l {
  running =
      insert2 key (record { interval = want.interval; device = want.device; token = l.next_token })
        l.running;
  next_token = suc l.next_token;
}

unfoldable pub stop_loop : Key → Loops → Loops
stop_loop key l = elim (get2 key l.running) [
  | none ↦ l
  | some r ↦ record l { running = remove2 key l.running; canceled = r.token ∷ l.canceled }
]

abbrev pub as_wanted : Option Running → Option Wanted
as_wanted none = none
as_wanted (some r) = some (record { interval = r.interval; device = r.device })

-- The body of a start, a retime or a rebind, where the device is still in the fleet.
abbrev pub where_known :
    Dict Device → Key → Option Wanted → (Wanted → Loops × Change) → Loops × Change → Loops × Change
where_known fleet key none body unchanged = unchanged
where_known fleet key (some want) body unchanged =
    let done = body want in elim (Dict.get key.1 fleet) [ none ↦ unchanged | some _ ↦ done ]

unfoldable pub perform :
    Action → Dict Device → Key → Option Wanted → Loops × Change → Loops × Change
perform leave fleet key want s = s
perform stop fleet key want (l, c) = (stop_loop key l, record c { stopped = c.stopped + 1 })
perform start fleet key want (l, c) =
    where_known fleet key want (λ w. (start_loop key w l, record c { started = c.started + 1 }))
      (l, c)
perform retime fleet key want (l, c) =
    where_known fleet key want
      (λ w. (start_loop key w (stop_loop key l), record c { retimed = c.retimed + 1 })) (l, c)
perform rebind fleet key want (l, c) =
    where_known fleet key want
      (λ w. (start_loop key w (stop_loop key l), record c { rebound = c.rebound + 1 })) (l, c)

-- One turn of the loop of `reconcile`.
unfoldable pub follow : Dict Device → Dict (Dict Wanted) → Key → Loops × Change → Loops × Change
follow fleet wanted key (l, c) =
    let want = get2 key wanted in
    perform (act (as_wanted (get2 key l.running)) want) fleet key want (l, c)

unfoldable pub follow_all :
    Dict Device → Dict (Dict Wanted) → List Key → Loops × Change → Loops × Change
follow_all fleet wanted [] s = s
follow_all fleet wanted (key ∷ keys) s = follow_all fleet wanted keys (follow fleet wanted key s)

-- The source gathers the two maps' keys in a set; here a key may come twice, and the second time it
-- is left alone.
unfoldable pub reconcile_loops : List FieldSchedule → Dict Device → Loops → Loops × Change
reconcile_loops schedule fleet l =
    let (wanted, declined) = wanted_loops schedule fleet in
    follow_all fleet wanted (keys2 wanted ++ keys2 l.running)
      (l, record { started = 0; stopped = 0; retimed = 0; rebound = 0; declined = declined })
