-- ===== src/Upkeep/Following.antt =====
-- After the tasks have followed the devices, each device has its task and there is no other.
use sismatic.Common.{
  ℕ, String, ◌≡◌, refl, ap, ◌∙◌, true, false, not, Option, none, some, List, [], ◌∷◌, map, select,
  ◌==◌, eq_iff, arith, contains, inl, inr, Bool-cases, Option-cases, if◌then◌else◌,
}
use sismatic.Common.Dict
use sismatic.Common.Dict.{Dict, Listed, get-insert, get-remove, get-empty}
use sismatic.Upkeep.Tasks.{
  Member, Task, Tasks, TaskChange, is_stale, retire, retire_all, ensure, ensure_all, follow_wanted,
  by_id, apply_relay, apply_keepalive,
}

-- The device that the task found is for.
abbrev pub runs_for : Option Task → Option String
runs_for none = none
runs_for (some task) = some task.device

retire_running :
    (wanted : Dict String) (id j : String) (s : Tasks × TaskChange)
    → Dict.get j (retire wanted id s).0.running ≡ (if id == j then none else Dict.get j s.0.running)
unfolding retire
retire_running wanted id j (t, c) = elim (Option-cases (Dict.get id t.running)) [
  | inl e ↦ ground (arith, e, eq_iff id j)
  | inr (task, e) ↦ ground (arith, e, get-remove id j t.running)
]

retire_all_running :
    (wanted : Dict String) (ids : List String) (j : String) (s : Tasks × TaskChange)
    → Dict.get j (retire_all wanted ids s).0.running
      ≡ (if contains j ids then none else Dict.get j s.0.running)
unfolding retire_all contains
retire_all_running wanted [] j s = refl
retire_all_running wanted (id ∷ ids) j s = ground (
  arith,
  retire_all_running wanted ids j (retire wanted id s),
  retire_running wanted id j s,
  eq_iff id j,
  eq_iff j id,
)

ensure_all_running :
    (entries : List (String × String)) (j : String) (s : Tasks × TaskChange × ℕ)
    → runs_for (Dict.get j (ensure_all entries s).0.running) ≡ (elim (Dict.get j s.0.running) [
      | none ↦ Dict.first_value j entries
      | some task ↦ some task.device
    ])
unfolding ensure_all ensure
ensure_all_running [] j s = ground arith
ensure_all_running ((id, uuid) ∷ entries) j (t, c, spawned) =
    let task : Task = record { device = uuid; token = t.next_token } in
    ground (
      arith,
      ensure_all_running entries j (ensure (id, uuid) (t, c, spawned)),
      get-insert id j task t.running,
      eq_iff id j,
    )

stale-Listed :
    (wanted : Dict String) (j : String) (task : Task) (entries : List (String × Task))
    → Listed j task entries
    → is_stale wanted (j, task) ≡ true
    → contains j (map (λ e. e.0) (select (is_stale wanted) entries)) ≡ true
unfolding select contains
stale-Listed wanted j task [] l h = elim l [ ]
stale-Listed wanted j task ((id, other) ∷ entries) (Listed.first same is) h =
    let stale : is_stale wanted (id, other) ≡ true =
      ap (λ x. is_stale wanted (x, other)) same ∙ ap (λ t. is_stale wanted (j, t)) is ∙ h in
    ground (arith, stale, eq_iff j id)
stale-Listed wanted j task ((id, other) ∷ entries) (Listed.later rest) h =
    ground (arith, stale-Listed wanted j task entries rest h)

current_lem :
    (m : Option String) (device : String)
    → elim m [ none ↦ true | some uuid ↦ not (uuid == device) ] ≡ false
    → m ≡ some device
current_lem none device h = absurd (cc)
current_lem (some uuid) device h = ground (arith, eq_iff uuid device)

follow_wanted_running :
    (wanted : Dict String) (t : Tasks) (j : String)
    → runs_for (Dict.get j (follow_wanted wanted t).0.running) ≡ Dict.get j wanted
unfolding follow_wanted
follow_wanted_running wanted t j =
    let stale = map (λ e. e.0) (select (is_stale wanted) t.running.entries) in
    let none_yet : TaskChange = record { started = 0; stopped = 0; rebound = 0; unchanged = 0 } in
    let s = retire_all wanted stale (t, none_yet) in
    let all = ensure_all_running wanted.entries j (s.0, s.1, 0) in
    let left = retire_all_running wanted stale j (t, none_yet) in
    let first = Dict.get_first j wanted in
    elim (Option-cases (Dict.get j t.running)) [
      | inl e ↦ ground (arith, all, left, first, e)
      | inr (task, e) ↦
          let listed = Dict.get-Listed j task t.running e in
          elim (Bool-cases (is_stale wanted (j, task))) [
            | inl old ↦
                let gone = stale-Listed wanted j task t.running.entries listed old in
                ground (arith, all, left, first, gone)
            | inr current ↦ elim (Bool-cases (contains j stale)) [
              | inl gone ↦ ground (arith, all, left, first, gone)
              | inr there ↦
                  let same : Dict.get j wanted ≡ some task.device =
                    current_lem (Dict.get j wanted) task.device current in
                  ground (arith, all, left, e, there, same)
            ]
          ]
    ]

-- The identity of the last of the devices that has the id, or else the one given.
abbrev pub last_uuid : String → List Member → Option String → Option String
last_uuid j [] before = before
last_uuid j (device ∷ devices) before =
    last_uuid j devices (if device.id == j then some device.uuid else before)

get-by_id :
    (j : String) (devices : List Member) (wanted : Dict String)
    → Dict.get j (by_id devices wanted) ≡ last_uuid j devices (Dict.get j wanted)
unfolding by_id
get-by_id j [] wanted = refl
get-by_id j (device ∷ devices) wanted =
    get-by_id j devices (Dict.insert device.id device.uuid wanted)
    ∙ ap (last_uuid j devices) (get-insert device.id j device.uuid wanted)

follow_devices_running :
    (devices : List Member) (t : Tasks) (j : String)
    → runs_for (Dict.get j (follow_wanted (by_id devices Dict.empty) t).0.running)
      ≡ last_uuid j devices none
follow_devices_running devices t j =
    follow_wanted_running (by_id devices Dict.empty) t j
    ∙ get-by_id j devices Dict.empty
    ∙ ap (last_uuid j devices) (get-empty {V = String} j)

-- After the relay has followed the registry a drain runs for each device of it, under the identity
-- that now has the id, and for no other id; and after the keepalive has, one for each eager device.
-- Of devices with one id, the last one's identity counts.
pub apply_relay_running :
    (devices : List Member) (t : Tasks) (j : String)
    → (runs_for (Dict.get j (apply_relay devices t).0.running) ≡ last_uuid j devices none)
      × (runs_for (Dict.get j (apply_keepalive devices t).0.running)
          ≡ last_uuid j (select (λ d. d.eager) devices) none)
unfolding apply_relay apply_keepalive
apply_relay_running devices t j =
    (follow_devices_running devices t j, follow_devices_running (select (λ d. d.eager) devices) t j)
