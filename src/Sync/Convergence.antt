-- ===== src/Sync/Convergence.antt =====
-- After a reconciliation the loops that run are the ones wanted, and a loop that was right already
-- was left alone.
use sismatic.Common.{
  ◌≡◌, sym, ap, ◌∙◌, false, none, some, List, ◌++◌, arith, inl, inr, Bool-cases, Option-cases,
}
use sismatic.Common.Dict
use sismatic.Common.Dict.{Dict, Listed}
use sismatic.Sync.Pairs.{Key, has_key, has_key-append, get2, keys2, has_key-keys2}
use sismatic.Sync.Driver.{
  FieldSchedule, Device, Wanted, Running, Loops, wanted_loops, as_wanted, reconcile_loops,
}
use sismatic.Sync.Wanted.{wanted_loops-AllAllowed}
use sismatic.Sync.Turns.{follow_all_same, follow_all_keys, not_listed}

wanted_known :
    (schedule : List FieldSchedule) (fleet : Dict Device) (k : Key) (w : Wanted)
    → get2 k (wanted_loops schedule fleet).0 ≡ some w
    → (d : Device) × (Dict.get k.1 fleet ≡ some d)
wanted_known schedule fleet k w e =
    let (device, listed, _, _) = wanted_loops-AllAllowed schedule fleet k w e in
    Dict.Listed-get k.1 device fleet listed

no_loop :
    (k : Key) (running : Dict (Dict Running))
    → has_key k (keys2 running) ≡ false
    → get2 k running ≡ none
no_loop k running h = elim (Option-cases (get2 k running)) [
  | inl e ↦ e
  | inr (r, e) ↦ absurd (ground (arith, has_key-keys2 k r running e))
]

no_want :
    (k : Key) (wanted : Dict (Dict Wanted))
    → has_key k (keys2 wanted) ≡ false
    → get2 k wanted ≡ none
no_want k wanted h = elim (Option-cases (get2 k wanted)) [
  | inl e ↦ e
  | inr (w, e) ↦ absurd (ground (arith, has_key-keys2 k w wanted e))
]

-- After a reconciliation there runs, for every field and device, the loop that the schedule wants of
-- the fleet, at its interval and for that device's identity, and none where none is wanted.
pub reconcile_loops_converges :
    (schedule : List FieldSchedule) (fleet : Dict Device) (l : Loops) (k : Key)
    → as_wanted (get2 k (reconcile_loops schedule fleet l).0.running)
      ≡ get2 k (wanted_loops schedule fleet).0
unfolding reconcile_loops
reconcile_loops_converges schedule fleet l k =
    let wanted = (wanted_loops schedule fleet).0 in
    let keys = keys2 wanted ++ keys2 l.running in
    let known = wanted_known schedule fleet in
    elim (Bool-cases (has_key k keys)) [
      | inl named ↦ follow_all_keys fleet wanted known keys k _ named
      | inr unnamed ↦
          let apart = has_key-append k (keys2 wanted) (keys2 l.running) in
          let idle = no_loop k l.running (ground (arith, apart)) in
          let unwanted = no_want k wanted (ground (arith, apart)) in
          ap as_wanted (not_listed fleet wanted known keys k _ unnamed ∙ idle) ∙ sym unwanted
    ]

-- A loop that is already the one wanted is the same loop after a reconciliation, with the same
-- cancellation token: it is neither stopped nor started again.
pub reconcile_loops_keeps :
    (schedule : List FieldSchedule) (fleet : Dict Device) (l : Loops) (k : Key)
    → as_wanted (get2 k l.running) ≡ get2 k (wanted_loops schedule fleet).0
    → get2 k (reconcile_loops schedule fleet l).0.running ≡ get2 k l.running
unfolding reconcile_loops
reconcile_loops_keeps schedule fleet l k e =
    let wanted = (wanted_loops schedule fleet).0 in
    follow_all_same fleet wanted (wanted_known schedule fleet) (keys2 wanted ++ keys2 l.running) k _
      e
