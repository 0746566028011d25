-- ===== src/Relay/Outcomes.antt =====
-- What each row of a batch is settled with.
use Prim.Native.String.{◌++◌ as ◌<>◌}
use sismatic.Common.{
  ℕ, String, ◌≡◌, refl, sym, ap, ◌∙◌, Bool, true, false, none, some, List, [], ◌∷◌, arith, distinct,
  Result, ok, err, inl, inr, Bool-cases,
}
use sismatic.Common.Dict
use sismatic.Common.Dict.{Dict, first_value, get-insert, get-empty}
use sismatic.Common.Dict.Ordered.{last_value, last_value-distinct}
use sismatic.Api.{WriteRecord, ReadValue, Timestamp}
use sismatic.Outbox.State.{Chrono}
use sismatic.Store.Policy.{Outcome}
use sismatic.Protocol.Values.{Value, to_dto}
use sismatic.Control.Device.{DeviceError}
use sismatic.Control.Group.{MemberDone, run_group}
use sismatic.Control.Gathered.{
  values_of, failures_of, all_answered, ids, run_group_answered, run_group_failed, failed_member,
  distinct-values_of, distinct-failures_of, first_value-values_of, first_value-failures_of,
  not_failed,
}
use sismatic.Relay.Dispatch.{Runner, by_device, member_outcome}

get-by_device {ℓ} :
    {V : Type ℓ} (k : String) (m : List (String × V)) (found : Dict V)
    → Dict.get k (by_device m found) ≡ last_value k m (Dict.get k found)
unfolding by_device
get-by_device k [] found = refl
get-by_device k ((id, v) ∷ rest) found =
    get-by_device k rest (Dict.insert id v found) ∙ ap (last_value k rest) (get-insert id k v found)

get-by_device_first {ℓ} :
    {V : Type ℓ} (k : String) (m : List (String × V))
    → distinct (ids m) ≡ true
    → Dict.get k (by_device m Dict.empty) ≡ first_value k m
get-by_device_first {V = V} k m d =
    get-by_device k m Dict.empty
    ∙ ap (last_value k m) (get-empty {V = V} k)
    ∙ last_value-distinct k m d

module _ (w : Runner) where
  -- The outcome of a member: its own failure; or its value, of which no more than an acknowledgement
  -- is kept where another member has failed.
  abbrev pub own_outcome : String → String → Bool → Result Value DeviceError → Outcome
  own_outcome id device all_ok (err e) = Outcome.failed (w.failure_text e)
  own_outcome id device true (ok v) = Outcome.succeeded (to_dto v)
  own_outcome id device false (ok v) =
      Outcome.succeeded (ReadValue.ack (device <> " accepted as part of batch " <> id))

module _ (w : Runner) (c : Chrono) (clock : ℕ → Timestamp) where
  outcome_of_values :
      (id : String) (members : List MemberDone) (r : WriteRecord) (v : Value)
      → distinct (ids members) ≡ true
      → first_value r.device members ≡ some (ok v)
      → member_outcome w c clock id (ok (values_of members)) r ≡ Outcome.succeeded (to_dto v)
  unfolding member_outcome
  outcome_of_values id members r v d h =
      let found : Dict.get r.device (by_device (values_of members) Dict.empty) ≡ some v =
        get-by_device_first r.device (values_of members) (distinct-values_of members d)
        ∙ first_value-values_of r.device v members h in
      ground (arith, found)

  outcome_of_failures :
      (id : String) (members : List MemberDone) (r : WriteRecord)
      (result : Result Value DeviceError)
      → distinct (ids members) ≡ true
      → first_value r.device members ≡ some result
      → member_outcome w c clock id (err (record { id = id; failures = failures_of members })) r
        ≡ own_outcome w id r.device false result
  unfolding member_outcome
  outcome_of_failures id members r (ok v) d h =
      let found : Dict.get r.device (by_device (failures_of members) Dict.empty) ≡ none =
        get-by_device_first r.device (failures_of members) (distinct-failures_of members d)
        ∙ not_failed r.device v members d h in
      ground (arith, found)
  outcome_of_failures id members r (err e) d h =
      let found : Dict.get r.device (by_device (failures_of members) Dict.empty) ≡ some e =
        get-by_device_first r.device (failures_of members) (distinct-failures_of members d)
        ∙ first_value-failures_of r.device e members h in
      ground (arith, found)

  -- Where the members of a batch have different ids, a row is settled with what its own device has
  -- come to, whatever the others have: its failure, where it failed; its value, where every member has
  -- answered; and an acknowledgement, where it has answered and another has failed.
  pub member_outcome_lem :
      (id : String) (members : List MemberDone) (r : WriteRecord)
      (result : Result Value DeviceError)
      → distinct (ids members) ≡ true
      → first_value r.device members ≡ some result
      → member_outcome w c clock id (run_group id members) r
        ≡ own_outcome w id r.device (all_answered members) result
  member_outcome_lem id members r result d h = elim (Bool-cases (all_answered members)) [
    | inr failed ↦
        ap (λ g. member_outcome w c clock id g r) (run_group_failed id members failed)
        ∙ outcome_of_failures id members r result d h
        ∙ ap (λ b. own_outcome w id r.device b result) (sym failed)
    | inl all ↦
        elim result
            as (λ res.
              first_value r.device members ≡ some res
              → member_outcome w c clock id (run_group id members) r
                ≡ own_outcome w id r.device (all_answered members) res) [
                  | err e ↦ λ f. absurd (ground (arith, all, failed_member r.device e members f))
                  | ok v ↦ λ f.
                      ap (λ g. member_outcome w c clock id g r) (run_group_answered id members all)
                      ∙ outcome_of_values id members r v d f
                      ∙ ap (λ b. own_outcome w id r.device b (ok v)) (sym all)
                ]
          h
  ]
