-- ===== src/Control/Group.antt =====
-- crates/sismatic-core/src/devices/group.rs: `DeviceGroup::run`. Each member runs in a task of its
-- own; what a task comes to is given with its member, in the order of the members.
use sismatic.Common.{String, List, [], ◌∷◌, ◌++◌, Result, ok, err}
use sismatic.Protocol.Values.{Value}
use sismatic.Control.Device.{DeviceError}

pub record GroupError : Type 0 where
  pub id : String
  pub failures : List (String × DeviceError)

-- A member's id and what its task came to.
abbrev pub MemberDone : Type 0
MemberDone = String × Result Value DeviceError

-- The loop over the handles: the values and the failures so far.
unfoldable pub gather :
    List MemberDone
    → List (String × Value) × List (String × DeviceError)
    → List (String × Value) × List (String × DeviceError)
gather [] s = s
gather ((id, ok value) ∷ rest) (values, failures) =
    gather rest (values ++ (id, value) ∷ [], failures)
gather ((id, err e) ∷ rest) (values, failures) = gather rest (values, failures ++ (id, e) ∷ [])

-- `DeviceGroup::run`, once the tasks have ended.
unfoldable pub run_group : String → List MemberDone → Result (List (String × Value)) GroupError
unfolding gather
run_group id members =
    let gathered = gather members ([], []) in
    elim gathered.1 [
      | [] ↦ ok gathered.0
      | f ∷ failures ↦ err (record { id = id; failures = f ∷ failures })
    ]
