-- ===== src/Relay/Dispatched.antt =====
-- What a dispatch has claimed it settles.
use sismatic.Common.{
  ℕ, String, ◌≡◌, refl, subst, true, false, some, List, [], ◌∷◌, ok, ◌==◌, eq_iff, arith, contains,
  inl, inr, Bool-cases, Result-cases,
}
use sismatic.Api.{WriteRecord, Timestamp}
use sismatic.Store.Policy.{Outcome, Claim, one, batch}
use sismatic.Outbox.State.{Chrono}
use sismatic.Outbox.Drain.{claim_next}
use sismatic.Fleet.Registry.{Device, Registry}
use sismatic.Protocol.Instructions.{to_instruction}
use sismatic.Relay.Landing.{flying, settle_others, settle_lands}
use sismatic.Relay.Dispatch.{
  Runner, Relaying, report, settle_all, frozen, dispatch_alone, dispatch_batch, dispatch_claim,
  dispatch_one, members_of,
}

abbrev ids_of : List WriteRecord → List String
ids_of [] = []
ids_of (r ∷ rest) = r.id ∷ ids_of rest

abbrev pub claimed_ids : Claim → List String
claimed_ids (one r) = r.id ∷ []
claimed_ids (batch _ rows) = ids_of rows

module _ (w : Runner) (c : Chrono) (clock : ℕ → Timestamp) where
  -- The row is not in flight.
  abbrev pub Landed : String → Relaying w c clock → Type 0
  Landed j s = flying j s.outbox.records ≡ false

  report_lands :
      (id : String) (outcome : Outcome) (s : Relaying w c clock)
      → Landed id (report w c clock id outcome s)
  unfolding report
  report_lands id outcome s = settle_lands c id outcome (clock s.readings) s.outbox

  report_others :
      (id j : String) (outcome : Outcome) (s : Relaying w c clock)
      → Landed j s
      → Landed j (report w c clock id outcome s)
  unfolding report
  report_others id j outcome s e = settle_others c id outcome (clock s.readings) s.outbox j e

  settle_all_others :
      (rows : List WriteRecord) (outcome_for : WriteRecord → Outcome) (j : String)
      (s : Relaying w c clock)
      → Landed j s
      → Landed j (settle_all w c clock rows outcome_for s)
  unfolding settle_all
  settle_all_others [] outcome_for j s e = e
  settle_all_others (r ∷ rest) outcome_for j s e =
      settle_all_others rest outcome_for j (report w c clock r.id (outcome_for r) s)
        (report_others r.id j (outcome_for r) s e)

  settle_all_lands :
      (rows : List WriteRecord) (outcome_for : WriteRecord → Outcome) (j : String)
      (s : Relaying w c clock)
      → contains j (ids_of rows) ≡ true
      → Landed j (settle_all w c clock rows outcome_for s)
  unfolding settle_all contains
  settle_all_lands [] outcome_for j s m = absurd (ground arith)
  settle_all_lands (r ∷ rest) outcome_for j s m = elim (Bool-cases (j == r.id)) [
    | inl mine ↦ settle_all_others rest outcome_for j (report w c clock r.id (outcome_for r) s) (
        subst (λ k. Landed k (report w c clock r.id (outcome_for r) s))
          (ground (arith, eq_iff j r.id)) (report_lands r.id (outcome_for r) s))
    | inr other ↦
        settle_all_lands rest outcome_for j (report w c clock r.id (outcome_for r) s)
          (ground (arith, other))
  ]

  dispatch_alone_lands :
      (d : Device) (r : WriteRecord) (s : Relaying w c clock)
      → Landed r.id (dispatch_alone w c clock d r s)
  unfolding dispatch_alone
  dispatch_alone_lands d r s = elim (Bool-cases (frozen w c clock r.intent d s).0) [
    | inl waits ↦ rw (waits, dispatch_alone) (report_lands r.id _ _)
    | inr free ↦ elim (Result-cases (to_instruction w.parsers r.intent)) [
      | inr (e, f) ↦ rw (free, f, dispatch_alone) (report_lands r.id _ _)
      | inl (i, f) ↦ rw (free, f, dispatch_alone) (report_lands r.id _ _)
    ]
  ]

  dispatch_batch_lands :
      (registry : Registry) (id : String) (rows : List WriteRecord) (j : String)
      (s : Relaying w c clock)
      → contains j (ids_of rows) ≡ true
      → Landed j (dispatch_batch w c clock registry id rows s)
  unfolding dispatch_batch contains
  dispatch_batch_lands registry id [] j s m = absurd (ground arith)
  dispatch_batch_lands registry id (first ∷ rest) j s m =
      elim (Result-cases (to_instruction w.parsers first.intent)) [
        | inr (e, f) ↦ rw (f, dispatch_batch) (settle_all_lands (first ∷ rest) _ j _ m)
        | inl (i, f) ↦ elim (Result-cases (members_of w c clock registry (first ∷ rest))) [
          | inr (missing, g) ↦ rw (f, g, dispatch_batch) (settle_all_lands (first ∷ rest) _ j _ m)
          | inl (members, g) ↦ rw (f, g, dispatch_batch) (settle_all_lands (first ∷ rest) _ j _ m)
        ]
      ]

  dispatch_claim_lands :
      (d : Device) (registry : Registry) (claim : Claim) (s : Relaying w c clock) (j : String)
      → contains j (claimed_ids claim) ≡ true
      → Landed j (dispatch_claim w c clock d registry claim s)
  unfolding contains
  dispatch_claim_lands d registry (one r) s j m =
      subst (λ k. Landed k (dispatch_alone w c clock d r s)) (ground (arith, eq_iff j r.id))
        (dispatch_alone_lands d r s)
  dispatch_claim_lands d registry (batch id rows) s j m =
      dispatch_batch_lands registry id rows j s m

  -- A dispatch that claims something settles all of it, and says that there was something to do:
  -- afterwards no row of the claim is in flight, whether it was one write or a batch, whatever the
  -- devices answer, and also where the instruction cannot be made, where a member is not in the
  -- registry, and where metadata reaches a device that records.
  pub dispatch_one_lands :
      (d : Device) (registry : Registry) (s : Relaying w c clock) (claim : Claim) (j : String)
      → (claim_next c d.config.id (clock s.readings) s.outbox).0 ≡ ok (some claim)
      → contains j (claimed_ids claim) ≡ true
      → ((dispatch_one w c clock d registry s).0 ≡ true)
        × Landed j (dispatch_one w c clock d registry s).1
  unfolding dispatch_one
  dispatch_one_lands d registry s claim j claimed m = (
    rw (claimed, dispatch_one) refl,
    rw (claimed, dispatch_one) (dispatch_claim_lands d registry claim _ j m),
  )
