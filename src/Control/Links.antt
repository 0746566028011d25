-- ===== src/Control/Links.antt =====
-- A link holds no connection while it refuses to make one.
use sismatic.Common.{
  ℕ, suc, ◌≡◌, refl, sym, ap, ◌∙◌, subst, false, ◌&&◌, none, some, List, [], ◌∷◌, ok, err, arith,
  inl, inr, some_injective, Bool-cases, Option-cases, Result-cases, ltb,
}
use sismatic.Devices.AutoDisabled.{AutoDisabled, is_some}
use sismatic.Fleet.Config.{DeviceConfig}
use sismatic.Protocol.Replies.{Instruction}
use sismatic.Control.Exchange.{Controller, run}
use sismatic.Control.Execution.{dial_device-Dials}
use sismatic.Control.Rounds.{last_round, executed, exec_loop_lem}
use sismatic.Control.Device.{
  DeviceError, Dial, Dialed, opened, refused, stalled, Link, Outside, Done, exchanged, goes_round,
  dial_device, dial_through, connect_device, exec, run_device, probe_device, field_veto,
}

-- Not both a connection and a gate.
abbrev pub IsSound : Link → Type 0
IsSound link = (is_some link.conn && is_some link.cold_until) ≡ false

gateless-IsSound : (link : Link) → link.cold_until ≡ none → IsSound link
gateless-IsSound link e = elim (Option-cases link.conn) [
  | inl f ↦ ground (arith, e, f)
  | inr (c, f) ↦ ground (arith, e, f)
]

connected_gateless :
    (link : Link) (c : Controller) → IsSound link → link.conn ≡ some c → link.cold_until ≡ none
connected_gateless link c h e = elim (Option-cases link.cold_until) [
  | inl f ↦ f
  | inr (t, f) ↦ absurd (ground (arith, e, f, h))
]

module _ (config : DeviceConfig) (clock : ℕ → ℕ) where
  dial_through_clears :
      (link : Link) (dials : List Dialed) (n : ℕ) (c : Controller)
      → let dialed = dial_through config clock link (record { dials = dials; readings = n }) in
        dialed.0 ≡ ok c → dialed.1.cold_until ≡ none
  unfolding dial_through connect_device
  dial_through_clears link [] n c h = absurd (cc)
  dial_through_clears link (opened t ∷ dials) n c h = refl
  dial_through_clears link (refused e ∷ dials) n c h = absurd (cc)
  dial_through_clears link (stalled ∷ dials) n c h = absurd (cc)

  -- A dial that succeeds leaves no gate.
  dial_device_clears :
      (dial : Dial) (link : Link) (out : Outside) (c : Controller)
      → (dial_device config clock dial link out).0 ≡ ok c
      → (dial_device config clock dial link out).1.cold_until ≡ none
  unfolding dial_device
  dial_device_clears Dial.always link out c h = dial_through_clears link out.dials out.readings c h
  dial_device_clears Dial.when_warm link out c h = elim (Option-cases link.cold_until) [
    | inl free ↦
        let through : dial_device config clock Dial.when_warm link out
            ≡ dial_through config clock link out =
          rw free refl in
        ap (λ d. d.1.cold_until) through
        ∙ dial_through_clears link out.dials out.readings c (sym (ap (λ d. d.0) through) ∙ h)
    | inr (until, gated) ↦ elim (Bool-cases (ltb (clock out.readings) until)) [
      | inl early ↦ absurd (ground (arith, gated, early))
      | inr late ↦
          let counted : Outside = record out { readings = suc out.readings } in
          let through : dial_device config clock Dial.when_warm link out
              ≡ dial_through config clock link counted =
            rw (gated, late) refl in
          ap (λ d. d.1.cold_until) through
          ∙ dial_through_clears link out.dials (suc out.readings) c
              (sym (ap (λ d. d.0) through) ∙ h)
    ]
  ]

  exchanged_gate :
      (i : Instruction) (c : Controller) (link : Link) (out : Outside)
      → (exchanged config clock i c link out).1.cold_until ≡ link.cold_until
  exchanged_gate i c link out = elim (Result-cases (run i c).0) [
    | inl (v, e) ↦ ground (arith, e)
    | inr (d, e) ↦ ground (arith, e)
  ]

  exchanged-IsSound :
      (i : Instruction) (c : Controller) (link : Link) (out : Outside)
      → link.cold_until ≡ none
      → IsSound (exchanged config clock i c link out).1
  exchanged-IsSound i c link out e =
      gateless-IsSound (exchanged config clock i c link out).1 (exchanged_gate i c link out ∙ e)

  unconnected-IsSound : (link : Link) → link.conn ≡ none → IsSound link
  unconnected-IsSound link e = ground (arith, e)

  last_round-IsSound :
      (i : Instruction) (dial : Dial) (link : Link) (out : Outside)
      → IsSound link
      → IsSound (last_round config clock i dial link out).1
  last_round-IsSound i dial link out h = elim (Option-cases link.conn) [
    | inr (c, e) ↦
        let round : last_round config clock i dial link out ≡ exchanged config clock i c link out =
          ground (arith, e) in
        subst (λ r. IsSound r.1) (sym round)
          (exchanged-IsSound i c link out (connected_gateless link c h e))
    | inl e ↦ elim (Result-cases (dial_device config clock dial link out).0) [
      | inl (c, f) ↦
          let dialed = dial_device config clock dial link out in
          let round : last_round config clock i dial link out
              ≡ exchanged config clock i c dialed.1 dialed.2 =
            ground (arith, e, f) in
          subst (λ r. IsSound r.1) (sym round)
            (exchanged-IsSound i c dialed.1 dialed.2 (dial_device_clears dial link out c f))
      | inr (d, f) ↦
          let dialed = dial_device config clock dial link out in
          let round : last_round config clock i dial link out ≡ (err d, dialed.1, dialed.2) =
            ground (arith, e, f) in
          subst (λ r. IsSound r.1) (sym round)
            (unconnected-IsSound dialed.1 ((dial_device-Dials config clock dial link out).0 ∙ e))
    ]
  ]

  exec-IsSound :
      (i : Instruction) (dial : Dial) (link : Link) (out : Outside)
      → IsSound link
      → IsSound (executed config clock i dial link out).1
  exec-IsSound i dial link out h = elim (Option-cases link.conn) [
    | inl e ↦
        let all : executed config clock i dial link out ≡ last_round config clock i dial link out =
          ground (arith, e) in
        subst (λ r. IsSound r.1) (sym all) (last_round-IsSound i dial link out h)
    | inr (c, e) ↦
        let first = exchanged config clock i c link out in
        elim (Bool-cases (goes_round config clock false first)) [
          | inr ends ↦
              let all : executed config clock i dial link out ≡ first = ground (arith, e, ends) in
              subst (λ r. IsSound r.1) (sym all)
                (exchanged-IsSound i c link out (connected_gateless link c h e))
          | inl again ↦
              let all : executed config clock i dial link out
                  ≡ last_round config clock i dial first.1 first.2 =
                ground (arith, e, again) in
              subst (λ r. IsSound r.1) (sym all)
                (last_round-IsSound i dial first.1 first.2
                  (exchanged-IsSound i c link out (connected_gateless link c h e)))
        ]
  ]

  pub exec-executed :
      (i : Instruction) (dial : Dial) (link : Link) (out : Outside)
      → exec config clock i dial link out ≡ some (executed config clock i dial link out)
  unfolding exec
  exec-executed i dial link out = exec_loop_lem config clock 0 i dial link out

  -- The links that a device has: the one that it begins with, and those that its commands leave.
  pub data LinkReach : Link → Type 0 where
    fresh : LinkReach (record { conn = none; cold_until = none })
    ran :
        (i : Instruction) (fields : AutoDisabled) (link : Link) (out : Outside) (done : Done)
        → run_device config clock i fields link out ≡ some done
        → LinkReach link
        → LinkReach done.1
    probed :
        (i : Instruction) (link : Link) (out : Outside) (done : Done)
        → probe_device config clock i link out ≡ some done
        → LinkReach link
        → LinkReach done.1

  exec_leaves :
      (i : Instruction) (dial : Dial) (link : Link) (out : Outside) (done : Done)
      → exec config clock i dial link out ≡ some done
      → IsSound link
      → IsSound done.1
  exec_leaves i dial link out done e h =
      subst (λ r. IsSound r.1) (some_injective (sym (exec-executed i dial link out) ∙ e))
        (exec-IsSound i dial link out h)

  run_device_leaves :
      (i : Instruction) (fields : AutoDisabled) (link : Link) (out : Outside) (done : Done)
      → run_device config clock i fields link out ≡ some done
      → IsSound link
      → IsSound done.1
  unfolding run_device
  run_device_leaves i fields link out done e h =
      elim (Option-cases (field_veto config (clock out.readings) i.name fields)) [
        | inl allowed ↦
            exec_leaves i Dial.when_warm link (record out { readings = suc out.readings }) done
              (sym (rw (allowed, run_device) refl) ∙ e) h
        | inr (veto, vetoed) ↦
            let refusal : run_device config clock i fields link out
                ≡ some (
                  err (DeviceError.disabled i.name veto.0 veto.1),
                  link,
                  record out { readings = suc out.readings },
                ) =
              rw (vetoed, run_device) refl in
            subst (λ r. IsSound r.1) (some_injective (sym refusal ∙ e)) h
      ]

  -- Whatever commands and probes a device has run, and whatever its dials have come to, its link never
  -- holds a connection and a gate together.
  pub LinkReach-IsSound : (link : Link) → LinkReach link → IsSound link
  unfolding probe_device
  LinkReach-IsSound _ fresh = refl
  LinkReach-IsSound _ (ran i fields link out done e reach) =
      run_device_leaves i fields link out done e (LinkReach-IsSound link reach)
  LinkReach-IsSound _ (probed i link out done e reach) =
      exec_leaves i Dial.always link out done e (LinkReach-IsSound link reach)
