-- ===== src/Sync/Turns.antt =====
-- What one turn of a reconciliation, and all of them, do to one key's loop.
use sismatic.Common.{
  ◌≡◌, refl, sym, ap, ◌∙◌, subst, true, false, Option, none, some, List, [], ◌∷◌, eq_iff, eq_refl,
  arith, inl, inr, Bool-cases, Option-cases, if◌then◌else◌,
}
use sismatic.Common.Dict
use sismatic.Common.Dict.{Dict, Listed}
use sismatic.Sync.Pairs.{Key, same_key, same_key_sound, has_key, get2, get2-insert2, get2-remove2}
use sismatic.Sync.Driver.{
  Device, Wanted, Change, Loops, Action, leave, start, stop, retime, rebind, act, start_loop,
  stop_loop, as_wanted, where_known, perform, follow, follow_all,
}

get2-start_loop :
    (k j : Key) (w : Wanted) (l : Loops)
    → as_wanted (get2 j (start_loop k w l).running)
      ≡ (if same_key k j then some w else as_wanted (get2 j l.running))
unfolding start_loop
get2-start_loop k j w l = ground (
  arith,
  get2-insert2 k j (record { interval = w.interval; device = w.device; token = l.next_token })
      l.running,
)

start_elsewhere :
    (k j : Key) (w : Wanted) (l : Loops)
    → same_key k j ≡ false
    → get2 j (start_loop k w l).running ≡ get2 j l.running
unfolding start_loop
start_elsewhere k j w l ne = get2-insert2 k j _ l.running ∙ rw ne

get2-stop_loop :
    (k j : Key) (l : Loops)
    → get2 j (stop_loop k l).running ≡ (if same_key k j then none else get2 j l.running)
unfolding stop_loop
get2-stop_loop k j l = elim (Option-cases (get2 k l.running)) [
  | inl e ↦
      rw (e, stop_loop)
        (elim (Bool-cases (same_key k j)) [
          | inl mine ↦
              ap (λ x. get2 x l.running) (sym (same_key_sound k j mine)) ∙ e ∙ sym (rw mine)
          | inr other ↦ sym (rw other)
        ])
  | inr (r, e) ↦ rw (e, stop_loop) (get2-remove2 k j l.running)
]

act_settled : (w : Option Wanted) → act w w ≡ leave
unfolding act
act_settled none = refl
act_settled (some w) = ground (arith, eq_refl w.device)

module _ (fleet : Dict Device) (wanted : Dict (Dict Wanted))
    (known : (k : Key) (w : Wanted)
      → get2 k wanted ≡ some w
      → (d : Device) × (Dict.get k.1 fleet ≡ some d)) where
  -- One turn makes the key's loop the one wanted.
  follow_key :
      (k : Key) (s : Loops × Change)
      → as_wanted (get2 k (follow fleet wanted k s).0.running) ≡ get2 k wanted
  unfolding follow perform act
  follow_key k (l, c) = by_state (as_wanted (get2 k l.running)) (get2 k wanted) refl refl
    where
      by_state :
          (now next : Option Wanted)
          → as_wanted (get2 k l.running) ≡ now
          → get2 k wanted ≡ next
          → as_wanted (get2 k (perform (act now next) fleet k next (l, c)).0.running) ≡ next
      by_state none none e f = e
      by_state none (some w) e f =
          let (d, g) = known k w f in
          ground (arith, g, get2-start_loop k k w l, eq_refl k.0, eq_refl k.1)
      by_state (some v) none e f = ground (arith, get2-stop_loop k k l, eq_refl k.0, eq_refl k.1)
      by_state (some v) (some w) e f =
          let (d, g) = known k w f in
          ground (
            arith,
            g,
            get2-start_loop k k w (stop_loop k l),
            eq_refl k.0,
            eq_refl k.1,
            eq_iff v.device w.device,
          )

  -- A loop that is the one wanted is left alone, and so is everything else in that turn.
  follow_same :
      (k : Key) (s : Loops × Change)
      → as_wanted (get2 k s.0.running) ≡ get2 k wanted
      → follow fleet wanted k s ≡ s
  unfolding follow perform
  follow_same k (l, c) e =
      let left : act (as_wanted (get2 k l.running)) (get2 k wanted) ≡ leave =
        ap (λ w. act w (get2 k wanted)) e ∙ act_settled (get2 k wanted) in
      rw (left, follow)

  -- A turn changes no other key's loop.
  follow_elsewhere :
      (k j : Key) (s : Loops × Change)
      → same_key k j ≡ false
      → get2 j (follow fleet wanted k s).0.running ≡ get2 j s.0.running
  unfolding follow
  follow_elsewhere k j (l, c) ne =
      by_action (act (as_wanted (get2 k l.running)) (get2 k wanted)) (get2 k wanted)
    where
      started :
          (w : Wanted) (m : Loops)
          → get2 j m.running ≡ get2 j l.running
          → get2 j (start_loop k w m).running ≡ get2 j l.running
      started w m e = start_elsewhere k j w m ne ∙ e

      stopped : get2 j (stop_loop k l).running ≡ get2 j l.running
      stopped = get2-stop_loop k j l ∙ rw ne

      by_known :
          (want : Option Wanted) (body : Wanted → Loops × Change)
          → ((w : Wanted) → get2 j (body w).0.running ≡ get2 j l.running)
          → get2 j (where_known fleet k want body (l, c)).0.running ≡ get2 j l.running
      by_known none body h = refl
      by_known (some w) body h = elim (Option-cases (Dict.get k.1 fleet)) [
        | inl e ↦ ground (arith, e)
        | inr (d, e) ↦ ground (arith, e, h w)
      ]

      by_action :
          (a : Action) (want : Option Wanted)
          → get2 j (perform a fleet k want (l, c)).0.running ≡ get2 j l.running
      by_action leave want = unfold perform in refl
      by_action stop want = unfold perform in stopped
      by_action start want = unfold perform in by_known want _ (λ w. started w l refl)
      by_action retime want =
          unfold perform in by_known want _ (λ w. started w (stop_loop k l) stopped)
      by_action rebind want =
          unfold perform in by_known want _ (λ w. started w (stop_loop k l) stopped)

  -- A loop that is the one wanted is left alone by all the turns.
  pub follow_all_same :
      (keys : List Key) (k : Key) (s : Loops × Change)
      → as_wanted (get2 k s.0.running) ≡ get2 k wanted
      → get2 k (follow_all fleet wanted keys s).0.running ≡ get2 k s.0.running
  unfolding follow_all
  follow_all_same [] k s e = refl
  follow_all_same (j ∷ keys) k s e = elim (Bool-cases (same_key j k)) [
    | inl mine ↦
        let same : follow fleet wanted j s ≡ s =
          ap (λ x. follow fleet wanted x s) (same_key_sound j k mine) ∙ follow_same k s e in
        ap (λ t. get2 k (follow_all fleet wanted keys t).0.running) same
        ∙ follow_all_same keys k s e
    | inr other ↦
        let kept = follow_elsewhere j k s other in
        follow_all_same keys k (follow fleet wanted j s) (ap as_wanted kept ∙ e) ∙ kept
  ]

  -- The loops of all the keys become the ones wanted.
  pub follow_all_keys :
      (keys : List Key) (k : Key) (s : Loops × Change)
      → has_key k keys ≡ true
      → as_wanted (get2 k (follow_all fleet wanted keys s).0.running) ≡ get2 k wanted
  unfolding follow_all has_key
  follow_all_keys [] k s h = absurd (ground arith)
  follow_all_keys (j ∷ keys) k s h = elim (Bool-cases (same_key k j)) [
    | inl mine ↦
        let e = same_key_sound k j mine in
        let now : as_wanted (get2 k (follow fleet wanted j s).0.running) ≡ get2 k wanted =
          subst (λ x. as_wanted (get2 k (follow fleet wanted x s).0.running) ≡ get2 k wanted) e
            (follow_key k s) in
        ap as_wanted (follow_all_same keys k (follow fleet wanted j s) now) ∙ now
    | inr other ↦ follow_all_keys keys k (follow fleet wanted j s) (ground (arith, other))
  ]

  pub not_listed :
      (keys : List Key) (k : Key) (s : Loops × Change)
      → has_key k keys ≡ false
      → get2 k (follow_all fleet wanted keys s).0.running ≡ get2 k s.0.running
  unfolding follow_all has_key
  not_listed [] k s h = refl
  not_listed (j ∷ keys) k s h =
      not_listed keys k (follow fleet wanted j s) (ground arith)
      ∙ follow_elsewhere j k s
          (ground (arith, eq_iff j.0 k.0, eq_iff k.0 j.0, eq_iff j.1 k.1, eq_iff k.1 j.1))
