-- ===== src/Control/Execution.antt =====
-- The loop of `exec` ends, and what it leaves of the connection.
use sismatic.Common.{
  ℕ, suc, ◌-◌, ◌≤◌, ◌≡◌, refl, sym, ap, ◌∙◌, subst, Bool, true, false, Option, none, some, List, [],
  ◌∷◌, Result, ok, err, err_injective, arith, length, inl, inr, Bool-cases, Option-cases,
  Result-cases, ltb, if◌then◌else◌,
}
use sismatic.Devices.AutoDisabled.{is_some}
use sismatic.Fleet.Config.{DeviceConfig}
use sismatic.Protocol.Values.{Value}
use sismatic.Protocol.Replies.{Instruction}
use sismatic.Control.Exchange.{Controller, run}
use sismatic.Control.Rounds.{last_round, executed, exec_loop_lem}
use sismatic.Control.Device.{
  DeviceError, Dial, Link, Outside, Done, is_refusal, exchanged, goes_round, dial_device,
  dial_through, connect_device, exec_loop, Dialed, opened, refused, stalled,
}

module _ (config : DeviceConfig) (clock : ℕ → ℕ) where
  -- What holds of every dial: the connection is not touched, one dial at most is used, and an error
  -- is no refusal.
  abbrev pub Dials : Link → Outside → Result Controller DeviceError × Link × Outside → Type 0
  Dials link out (result, link', out') =
      (link'.conn ≡ link.conn)
      × (length out.dials ≤ suc (length out'.dials))
      × ((e : DeviceError) → result ≡ err e → is_refusal e ≡ false)

  err_is :
      {e d : DeviceError}
      → is_refusal d ≡ false
      → ◌≡◌ {A = Result Controller DeviceError} (err d) (err e)
      → is_refusal e ≡ false
  err_is h same = ap is_refusal (sym (err_injective same)) ∙ h

  dial_through-Dials_in :
      (link : Link) (dials : List Dialed) (n : ℕ)
      → let out : Outside = record { dials = dials; readings = n } in
        Dials link out (dial_through config clock link out)
  unfolding dial_through connect_device is_refusal
  dial_through-Dials_in link [] n = (refl, omega arith, λ e h. err_is refl h)
  dial_through-Dials_in link (opened t ∷ dials) n = (refl, omega arith, λ e h. absurd (cc))
  dial_through-Dials_in link (refused d ∷ dials) n = (refl, omega arith, λ e h. err_is refl h)
  dial_through-Dials_in link (stalled ∷ dials) n = (refl, omega arith, λ e h. err_is refl h)

  pub dial_device-Dials :
      (dial : Dial) (link : Link) (out : Outside)
      → Dials link out (dial_device config clock dial link out)
  unfolding dial_device is_refusal
  dial_device-Dials Dial.always link out = dial_through-Dials_in link out.dials out.readings
  dial_device-Dials Dial.when_warm link out = by_gate link.cold_until
    where
      counted : Outside
      counted = record out { readings = suc out.readings }

      by_time :
          (until : ℕ) (b : Bool)
          → Dials link out (
              if b
              then (err (DeviceError.cold (until - clock out.readings)), link, counted)
              else dial_through config clock link counted)
      by_time until true = (refl, omega arith, λ e h. err_is refl h)
      by_time until false = dial_through-Dials_in link out.dials (suc out.readings)

      by_gate :
          (gate : Option ℕ)
          → Dials link out (elim gate [
            | none ↦ dial_through config clock link out
            | some until ↦
                if ltb (clock out.readings) until
                then (err (DeviceError.cold (until - clock out.readings)), link, counted)
                else dial_through config clock link counted
          ])
      by_gate none = dial_through-Dials_in link out.dials out.readings
      by_gate (some until) = by_time until (ltb (clock out.readings) until)

  -- `true` of an answer and of a refusal.
  abbrev pub has_answered : Result Value DeviceError → Bool
  has_answered (ok _) = true
  has_answered (err e) = is_refusal e

  exchanged-has_answered :
      (i : Instruction) (c : Controller) (link : Link) (out : Outside)
      → is_some (exchanged config clock i c link out).1.conn
        ≡ has_answered (exchanged config clock i c link out).0
  exchanged-has_answered i c link out = elim (Result-cases (run i c).0) [
    | inl (v, e) ↦ ground (arith, e)
    | inr (d, e) ↦ elim (Bool-cases (is_refusal (DeviceError.command d))) [
      | inl refuses ↦ ground (arith, e, refuses)
      | inr other ↦ ground (arith, e, other)
    ]
  ]

  exchanged_outside :
      (i : Instruction) (c : Controller) (link : Link) (out : Outside)
      → (exchanged config clock i c link out).2 ≡ out
  exchanged_outside i c link out = elim (Result-cases (run i c).0) [
    | inl (v, e) ↦ ground (arith, e)
    | inr (d, e) ↦ ground (arith, e)
  ]

  -- What holds of every command: it leaves a connection just where the device has answered or has
  -- refused, and it uses one dial at most.
  abbrev pub Executed : Outside → Done → Type 0
  Executed out (result, link', out') =
      (is_some link'.conn ≡ has_answered result) × (length out.dials ≤ suc (length out'.dials))

  exchanged-Executed :
      (i : Instruction) (c : Controller) (link : Link) (before out : Outside)
      → length before.dials ≤ suc (length out.dials)
      → Executed before (exchanged config clock i c link out)
  exchanged-Executed i c link before out le = (
    exchanged-has_answered i c link out,
    subst (λ o. length before.dials ≤ suc (length o.dials)) (sym (exchanged_outside i c link out))
        le,
  )

  last_round-Executed :
      (i : Instruction) (dial : Dial) (link : Link) (out : Outside)
      → Executed out (last_round config clock i dial link out)
  last_round-Executed i dial link out = elim (Option-cases link.conn) [
    | inr (c, e) ↦
        subst (Executed out) (sym (over_cached c e))
          (exchanged-Executed i c link out out (omega arith))
    | inl e ↦ elim (Result-cases (dial_device config clock dial link out).0) [
      | inl (c, f) ↦
          subst (Executed out) (sym (over_fresh c e f))
            (exchanged-Executed i c dialed.1 out dialed.2 held.1)
      | inr (d, f) ↦
          subst (Executed out) (sym (undialed d e f))
            (ap is_some (held.0 ∙ e) ∙ sym (held.2 d f), held.1)
    ]
  ]
    where
      dialed : Result Controller DeviceError × Link × Outside
      dialed = dial_device config clock dial link out

      held : Dials link out dialed
      held = dial_device-Dials dial link out

      over_cached :
          (c : Controller)
          → link.conn ≡ some c
          → last_round config clock i dial link out ≡ exchanged config clock i c link out
      over_cached c e = ground (arith, e)

      over_fresh :
          (c : Controller)
          → link.conn ≡ none
          → dialed.0 ≡ ok c
          → last_round config clock i dial link out ≡ exchanged config clock i c dialed.1 dialed.2
      over_fresh c e f = ground (arith, e, f)

      undialed :
          (d : DeviceError)
          → link.conn ≡ none
          → dialed.0 ≡ err d
          → last_round config clock i dial link out ≡ (err d, dialed.1, dialed.2)
      undialed d e f = ground (arith, e, f)

  executed-Executed :
      (i : Instruction) (dial : Dial) (link : Link) (out : Outside)
      → Executed out (executed config clock i dial link out)
  executed-Executed i dial link out = elim (Option-cases link.conn) [
    | inl e ↦ subst (Executed out) (sym (uncached e)) (last_round-Executed i dial link out)
    | inr (c, e) ↦ elim (Bool-cases (goes_round config clock false (first c))) [
      | inr ends ↦
          subst (Executed out) (sym (once c e ends))
            (exchanged-Executed i c link out out (omega arith))
      | inl again ↦ subst (Executed out) (sym (twice c e again)) (
          subst (λ o. Executed o (last_round config clock i dial (first c).1 (first c).2))
            (exchanged_outside i c link out) (last_round-Executed i dial (first c).1 (first c).2))
    ]
  ]
    where
      first : Controller → Done
      first c = exchanged config clock i c link out

      uncached :
          link.conn ≡ none
          → executed config clock i dial link out ≡ last_round config clock i dial link out
      uncached e = ground (arith, e)

      once :
          (c : Controller)
          → link.conn ≡ some c
          → goes_round config clock false (first c) ≡ false
          → executed config clock i dial link out ≡ first c
      once c e ends = ground (arith, e, ends)

      twice :
          (c : Controller)
          → link.conn ≡ some c
          → goes_round config clock false (first c) ≡ true
          → executed config clock i dial link out
            ≡ last_round config clock i dial (first c).1 (first c).2
      twice c e again = ground (arith, e, again)

  -- A command ends: the loop of `exec` has a result after two rounds at most, which more fuel does not
  -- change. It leaves a connection just where the device has answered or has refused the command, none
  -- after any other error, and it uses one dial at most, also where it went round again.
  pub exec_loop-ends :
      (i : Instruction) (dial : Dial) (link : Link) (out : Outside)
      → (r : Done) × ((fuel : ℕ)
          → exec_loop config clock (suc (suc fuel)) i dial false link out ≡ some r)
        × Executed out r
  exec_loop-ends i dial link out = (
    executed config clock i dial link out,
    λ fuel. exec_loop_lem config clock fuel i dial link out,
    executed-Executed i dial link out,
  )
