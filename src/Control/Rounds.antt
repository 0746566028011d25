-- ===== src/Control/Rounds.antt =====
-- The loop of `exec` goes round twice at most.
use sismatic.Common.{
  ℕ, suc, ◌≡◌, refl, ◌∙◌, true, false, none, some, ok, err, arith, inl, inr, Bool-cases,
  Option-cases, Result-cases,
}
use sismatic.Fleet.Config.{DeviceConfig}
use sismatic.Protocol.Replies.{Instruction}
use sismatic.Control.Device.{
  Dial, Link, Outside, Done, exchanged, goes_round, dial_device, exec_loop,
}

module _ (config : DeviceConfig) (clock : ℕ → ℕ) where
  -- A round that is not followed by another.
  abbrev pub last_round : Instruction → Dial → Link → Outside → Done
  last_round i dial link out = elim link.conn [
    | some c ↦ exchanged config clock i c link out
    | none ↦
        let (result, link', out') = dial_device config clock dial link out in
        elim result [ err e ↦ (err e, link', out') | ok c ↦ exchanged config clock i c link' out' ]
  ]

  never_third : (round : Done) → goes_round config clock true round ≡ false
  never_third (ok _, _, _) = refl
  never_third (err e, _, _) = ground arith

  exec_loop-again :
      (fuel : ℕ) (i : Instruction) (dial : Dial) (link : Link) (out : Outside)
      → exec_loop config clock (suc fuel) i dial true link out ≡ some (last_round i dial link out)
  unfolding exec_loop
  exec_loop-again fuel i dial link out = elim (Option-cases link.conn) [
    | inr (c, e) ↦ ground (arith, e, never_third (exchanged config clock i c link out))
    | inl e ↦ elim (Result-cases (dial_device config clock dial link out).0) [
      | inl (c, f) ↦ ground (arith, e, f)
      | inr (d, f) ↦ ground (arith, e, f)
    ]
  ]

  -- The round of a fresh connection, or of an error of the dial.
  exec_loop-undialed :
      (fuel : ℕ) (i : Instruction) (dial : Dial) (link : Link) (out : Outside)
      → link.conn ≡ none
      → exec_loop config clock (suc fuel) i dial false link out ≡ some (last_round i dial link out)
  unfolding exec_loop
  exec_loop-undialed fuel i dial link out e =
      elim (Result-cases (dial_device config clock dial link out).0) [
        | inl (c, f) ↦ ground (arith, e, f)
        | inr (d, f) ↦ ground (arith, e, f)
      ]

  -- The value of the loop: the first round over a cached connection, or the one after it.
  abbrev pub executed : Instruction → Dial → Link → Outside → Done
  executed i dial link out = elim link.conn [
    | some c ↦
        let round = exchanged config clock i c link out in
        elim (goes_round config clock false round) [
          | false ↦ round
          | true ↦ last_round i dial round.1 round.2
        ]
    | none ↦ last_round i dial link out
  ]

  pub exec_loop_lem :
      (fuel : ℕ) (i : Instruction) (dial : Dial) (link : Link) (out : Outside)
      → exec_loop config clock (suc (suc fuel)) i dial false link out
        ≡ some (executed i dial link out)
  unfolding exec_loop
  exec_loop_lem fuel i dial link out = elim (Option-cases link.conn) [
    | inl e ↦ exec_loop-undialed (suc fuel) i dial link out e ∙ ground (arith, e)
    | inr (c, e) ↦
        let round = exchanged config clock i c link out in
        elim (Bool-cases (goes_round config clock false round)) [
          | inl again ↦ ground (arith, e, again, exec_loop-again fuel i dial round.1 round.2)
          | inr ends ↦ ground (arith, e, ends)
        ]
  ]
