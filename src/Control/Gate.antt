-- ===== src/Control/Gate.antt =====
-- A dial that fails closes the gate, and no command dials while it is closed.
use sismatic.Common.{
  ℕ, suc, ◌+◌, ◌*◌, ◌-◌, ◌≤◌, ◌<◌, ◌≡◌, refl, sym, ap, ◌∙◌, subst, true, false, Option, none, some,
  List, [], ◌∷◌, length, contains, Result, err, err_injective, some_injective, arith, inl, inr,
  Bool-cases, Option-cases, Result-cases, ltb, lt→ltb, if◌then◌else◌,
}
use sismatic.Devices.AutoDisabled.{AutoDisabled, declared, inferred, veto}
use sismatic.Fleet.Config.{DeviceConfig}
use sismatic.Protocol.Values.{Value}
use sismatic.Protocol.Replies.{Instruction}
use sismatic.Control.Exchange.{Controller, run}
use sismatic.Control.Execution.{dial_device-Dials}
use sismatic.Control.Links.{exec-executed}
use sismatic.Control.Rounds.{last_round, executed}
use sismatic.Control.Device.{
  ConnectError, DeviceError, Dial, Dialed, opened, refused, stalled, Done, Link, Outside, exchanged,
  goes_round, connect_device, dial_through, dial_device, exec_loop, exec, field_veto, run_device,
}

module _ (config : DeviceConfig) (clock : ℕ → ℕ) where
  -- The gate that a dial leaves when it fails: shut for the backoff, from the last reading on.
  abbrev pub gate_from : Outside → Option ℕ
  gate_from out = elim config.cold_backoff [
    | none ↦ none
    | some backoff ↦ some (clock (out.readings - 1) + backoff)
  ]

  -- Of a dial that failed, the connection is gone and the gate is shut.
  abbrev Shuts : Done → Type 0
  Shuts (result, link, out) =
      (e : ConnectError)
      → result ≡ err (DeviceError.connect e)
      → (link.conn ≡ none) × (link.cold_until ≡ gate_from out)

  dial_through_shuts :
      (link : Link) (dials : List Dialed) (n : ℕ) (e : ConnectError)
      → let dialed = dial_through config clock link (record { dials = dials; readings = n }) in
        dialed.0 ≡ err (DeviceError.connect e) → dialed.1.cold_until ≡ gate_from dialed.2
  unfolding dial_through connect_device
  dial_through_shuts link [] n e h = ground arith
  dial_through_shuts link (opened t ∷ dials) n e h = absurd (cc)
  dial_through_shuts link (refused d ∷ dials) n e h = ground arith
  dial_through_shuts link (stalled ∷ dials) n e h = ground arith

  dial_device_shuts :
      (dial : Dial) (link : Link) (out : Outside) (e : ConnectError)
      → (dial_device config clock dial link out).0 ≡ err (DeviceError.connect e)
      → (dial_device config clock dial link out).1.cold_until
        ≡ gate_from (dial_device config clock dial link out).2
  unfolding dial_device
  dial_device_shuts Dial.always link out e h = dial_through_shuts link out.dials out.readings e h
  dial_device_shuts Dial.when_warm link out e h = elim (Option-cases link.cold_until) [
    | inl free ↦
        let through : dial_device config clock Dial.when_warm link out
            ≡ dial_through config clock link out =
          rw free refl in
        ap (λ d. d.1.cold_until) through
        ∙ dial_through_shuts link out.dials out.readings e (sym (ap (λ d. d.0) through) ∙ h)
        ∙ ap (λ d. gate_from d.2) (sym through)
    | inr (until, gated) ↦ elim (Bool-cases (ltb (clock out.readings) until)) [
      | inl early ↦ absurd (ground (arith, gated, early))
      | inr late ↦
          let counted : Outside = record out { readings = suc out.readings } in
          let through : dial_device config clock Dial.when_warm link out
              ≡ dial_through config clock link counted =
            rw (gated, late) refl in
          ap (λ d. d.1.cold_until) through
          ∙ dial_through_shuts link out.dials (suc out.readings) e (sym (ap (λ d. d.0) through) ∙ h)
          ∙ ap (λ d. gate_from d.2) (sym through)
    ]
  ]

  exchanged-Shuts :
      (i : Instruction) (c : Controller) (link : Link) (out : Outside)
      → Shuts (exchanged config clock i c link out)
  exchanged-Shuts i c link out e h = elim (Result-cases (run i c).0) [
    | inl (v, f) ↦ absurd (ground (arith, f, h))
    | inr (d, f) ↦ absurd (ground (arith, f, h))
  ]

  last_round-Shuts :
      (i : Instruction) (dial : Dial) (link : Link) (out : Outside)
      → Shuts (last_round config clock i dial link out)
  last_round-Shuts i dial link out = elim (Option-cases link.conn) [
    | inr (c, g) ↦
        let round : last_round config clock i dial link out ≡ exchanged config clock i c link out =
          ground (arith, g) in
        subst Shuts (sym round) (exchanged-Shuts i c link out)
    | inl g ↦ elim (Result-cases (dial_device config clock dial link out).0) [
      | inl (c, f) ↦
          let dialed = dial_device config clock dial link out in
          let round : last_round config clock i dial link out
              ≡ exchanged config clock i c dialed.1 dialed.2 =
            ground (arith, g, f) in
          subst Shuts (sym round) (exchanged-Shuts i c dialed.1 dialed.2)
      | inr (d, f) ↦
          let dialed = dial_device config clock dial link out in
          let round : last_round config clock i dial link out ≡ (err d, dialed.1, dialed.2) =
            ground (arith, g, f) in
          subst Shuts (sym round) (λ e h. (
            (dial_device-Dials config clock dial link out).0 ∙ g,
            dial_device_shuts dial link out e (f ∙ ap err (err_injective h)),
          ))
    ]
  ]

  executed-Shuts :
      (i : Instruction) (dial : Dial) (link : Link) (out : Outside)
      → Shuts (executed config clock i dial link out)
  executed-Shuts i dial link out = elim (Option-cases link.conn) [
    | inl g ↦
        let all : executed config clock i dial link out ≡ last_round config clock i dial link out =
          ground (arith, g) in
        subst Shuts (sym all) (last_round-Shuts i dial link out)
    | inr (c, g) ↦
        let first = exchanged config clock i c link out in
        elim (Bool-cases (goes_round config clock false first)) [
          | inr ends ↦
              let all : executed config clock i dial link out ≡ first = ground (arith, g, ends) in
              subst Shuts (sym all) (exchanged-Shuts i c link out)
          | inl again ↦
              let all : executed config clock i dial link out
                  ≡ last_round config clock i dial first.1 first.2 =
                ground (arith, g, again) in
              subst Shuts (sym all) (last_round-Shuts i dial first.1 first.2)
        ]
  ]

  -- Commands one after another, each with the fields that refusals have vetoed by then.
  abbrev pub run_all :
      List (Instruction × AutoDisabled)
      → Link
      → Outside
      → Option (List (Result Value DeviceError) × Link × Outside)
  run_all [] link out = some ([], link, out)
  run_all ((i, fields) ∷ rest) link out = elim (run_device config clock i fields link out) [
    | none ↦ none
    | some done ↦ elim (run_all rest done.1 done.2) [
      | none ↦ none
      | some later ↦ some (done.0 ∷ later.0, later.1, later.2)
    ]
  ]

  -- What a command comes to while the gate is shut, and the readings of the clock after it: that the
  -- operator has vetoed its field, or else that refusals have, or else that the device is cold.
  abbrev pub turned_away_once : ℕ → ℕ → Instruction → AutoDisabled → DeviceError × ℕ
  turned_away_once until n i fields =
      if contains i.name config.disabled_fields
      then (DeviceError.disabled i.name declared none, suc n)
      else elim (veto (clock n) i.name fields) [
        | some left ↦ (DeviceError.disabled i.name inferred left, suc n)
        | none ↦ (DeviceError.cold (until - clock (suc n)), suc (suc n))
      ]

  abbrev pub turned_away :
      ℕ → ℕ → List (Instruction × AutoDisabled) → List (Result Value DeviceError) × ℕ
  turned_away until n [] = ([], n)
  turned_away until n ((i, fields) ∷ rest) =
      let now = turned_away_once until n i fields in
      let later = turned_away until now.1 rest in (err now.0 ∷ later.0, later.1)

  exec_gated :
      (i : Instruction) (link : Link) (out : Outside) (until : ℕ)
      → link.conn ≡ none
      → link.cold_until ≡ some until
      → ltb (clock out.readings) until ≡ true
      → exec config clock i Dial.when_warm link out
        ≡ some (
          err (DeviceError.cold (until - clock out.readings)),
          link,
          record out { readings = suc out.readings },
        )
  unfolding exec exec_loop dial_device
  exec_gated i link out until cold gate early = ground (arith, cold, gate, early)

  run_device_gated :
      (i : Instruction) (fields : AutoDisabled) (link : Link) (out : Outside) (until : ℕ)
      → link.conn ≡ none
      → link.cold_until ≡ some until
      → clock (suc out.readings) < until
      → let away = turned_away_once until out.readings i fields in
        run_device config clock i fields link out
        ≡ some (err away.0, link, record out { readings = away.1 })
  unfolding run_device field_veto
  run_device_gated i fields link out until cold gate early =
      let counted : Outside = record out { readings = suc out.readings } in
      let gated =
        exec_gated i link counted until cold gate (lt→ltb (clock (suc out.readings)) until early) in
      elim (Bool-cases (contains i.name config.disabled_fields)) [
        | inl named ↦ ground (arith, named)
        | inr free ↦ elim (Option-cases (veto (clock out.readings) i.name fields)) [
          | inl allowed ↦ ground (arith, free, allowed, gated)
          | inr (left, vetoed) ↦ ground (arith, free, vetoed)
        ]
      ]

  turned_away_once_counts :
      (until n : ℕ) (i : Instruction) (fields : AutoDisabled)
      → (n ≤ (turned_away_once until n i fields).1)
        × ((turned_away_once until n i fields).1 ≤ n + 2)
  turned_away_once_counts until n i fields =
      elim (Bool-cases (contains i.name config.disabled_fields)) [
        | inl named ↦ (ground (arith, named), ground (arith, named))
        | inr free ↦ elim (Option-cases (veto (clock n) i.name fields)) [
          | inl allowed ↦ (ground (arith, free, allowed), ground (arith, free, allowed))
          | inr (left, vetoed) ↦ (ground (arith, free, vetoed), ground (arith, free, vetoed))
        ]
      ]

  run_all_next :
      {result : Result Value DeviceError} {results : List (Result Value DeviceError)}
      {mid last : Link} {between final : Outside} (i : Instruction) (fields : AutoDisabled)
      (rest : List (Instruction × AutoDisabled)) (link : Link) (out : Outside)
      → run_device config clock i fields link out ≡ some (result, mid, between)
      → run_all rest mid between ≡ some (results, last, final)
      → run_all ((i, fields) ∷ rest) link out ≡ some (result ∷ results, last, final)
  run_all_next i fields rest link out one later = ground (arith, one, later)

  run_all_gated :
      (commands : List (Instruction × AutoDisabled)) (link : Link) (out : Outside) (until : ℕ)
      → link.conn ≡ none
      → link.cold_until ≡ some until
      → ((m : ℕ) → out.readings ≤ m → m ≤ out.readings + 2 * length commands → clock m < until)
      → let away = turned_away until out.readings commands in
        run_all commands link out ≡ some (away.0, link, record out { readings = away.1 })
  run_all_gated [] link out until cold gate early = refl
  run_all_gated ((i, fields) ∷ rest) link out until cold gate early =
      let away = turned_away_once until out.readings i fields in
      let counts = turned_away_once_counts until out.readings i fields in
      let one =
        run_device_gated i fields link out until cold gate
          (early (suc out.readings) (omega arith) (omega arith)) in
      let later =
        run_all_gated rest link (record out { readings = away.1 }) until cold gate
          (λ m above below.
            early m (omega (arith, above, counts)) (omega (arith, below, counts))) in
      run_all_next i fields rest link out one later

  -- A command or a probe that comes to a connection error, whatever its link was before, leaves the
  -- gate shut for the backoff, where the configuration has one. As long as the clock, which a command
  -- reads twice at most, is short of the gate's end, the commands that follow do not dial: each is
  -- turned away, for its field's veto, the operator's first, or because the device is cold, with the
  -- time that is left; and the link and the dials to come stay as they are.
  pub failed_dial_gates :
      (i : Instruction) (dial : Dial) (link after : Link) (out later : Outside) (e : ConnectError)
      (backoff : ℕ) (commands : List (Instruction × AutoDisabled))
      → exec config clock i dial link out ≡ some (err (DeviceError.connect e), after, later)
      → config.cold_backoff ≡ some backoff
      → ((m : ℕ)
          → later.readings ≤ m
          → m ≤ later.readings + 2 * length commands
          → clock m < clock (later.readings - 1) + backoff)
      → let away = turned_away (clock (later.readings - 1) + backoff) later.readings commands in
        run_all commands after later ≡ some (away.0, after, record later { readings = away.1 })
  failed_dial_gates i dial link after out later e backoff commands failed kept early =
      let same : executed config clock i dial link out
          ≡ (err (DeviceError.connect e), after, later) =
        some_injective (sym (exec-executed config clock i dial link out) ∙ failed) in
      let shut = subst Shuts same (executed-Shuts i dial link out) e refl in
      run_all_gated commands after later (clock (later.readings - 1) + backoff) shut.0
        (shut.1 ∙ rw kept refl) early
