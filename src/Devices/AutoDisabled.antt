-- ===== src/Devices/AutoDisabled.antt =====
-- crates/sismatic-core/src/devices/auto_disabled.rs: the fields that a device has refused too often.
-- An operation that holds the mutex is one function on the map; the clock is read once, and its
-- instant is an argument, in nanoseconds.
use sismatic.Common.{
  ℕ, ◌+◌, ◌-◌, ◌^◌, String, Bool, true, false, Option, none, some, List, map, ltb, leb, eqb,
  if◌then◌else◌,
}
use sismatic.Common.Dict
use sismatic.Common.Dict.{Dict}

pub data VetoSource : Type 0 where
  declared inferred : VetoSource

pub record AutoDisabledField : Type 0 where
  pub name : String
  pub refusals : ℕ  -- u32
  pub disabled : Bool
  pub retry_in : Option ℕ

pub data Refusal : Type 0 where
  counted disabled : ℕ → Refusal
  still : Refusal

pub record Record : Type 0 where
  pub refusals : ℕ  -- u32
  pub vetoed_until : Option (Option ℕ)

abbrev pub AutoDisabled : Type 0
AutoDisabled = Dict Record

abbrev pub no_refusals : Record
no_refusals = record { refusals = 0; vetoed_until = none }

abbrev pub is_some {ℓ} : {A : Type ℓ} → Option A → Bool
is_some none = false
is_some (some _) = true

-- What is left of a veto: `none` of no veto, `some none` of one without an end.
abbrev pub veto_left : ℕ → Option (Option ℕ) → Option (Option ℕ)
veto_left now none = none
veto_left now (some none) = some none
veto_left now (some (some until)) = if ltb now until then some (some (until - now)) else none

unfoldable pub veto : ℕ → String → AutoDisabled → Option (Option ℕ)
veto now field fields = elim (Dict.get field fields) [
  | none ↦ none
  | some r ↦ veto_left now r.vetoed_until
]

-- `u32::saturating_add(1)`.
unfoldable pub saturating_suc : ℕ → ℕ
saturating_suc n = if ltb n (2 ^ 32 - 1) then n + 1 else 2 ^ 32 - 1

abbrev pub until_from : ℕ → Option ℕ → Option ℕ
until_from now none = none
until_from now (some wait) = some (now + wait)

-- The record after one more refusal.
unfoldable pub refused_record : ℕ → ℕ → Option ℕ → Record → Record
refused_record now threshold self_heal r =
    let refusals = saturating_suc r.refusals in
    if ltb refusals threshold
    then record r { refusals = refusals }
    else record { refusals = refusals; vetoed_until = some (until_from now self_heal) }

unfoldable pub refused : ℕ → String → ℕ → Option ℕ → AutoDisabled → Refusal × AutoDisabled
refused now field threshold self_heal fields =
    let before = Dict.get_or field no_refusals fields in
    let after = refused_record now threshold self_heal before in
    let told =
      if ltb after.refusals threshold
      then Refusal.counted after.refusals
      else if is_some before.vetoed_until
      then still
      else Refusal.disabled after.refusals in
    if eqb threshold 0 then (still, fields) else (told, Dict.insert field after fields)

unfoldable pub answered : String → AutoDisabled → Bool × AutoDisabled
answered field fields = elim (Dict.get field fields) [
  | none ↦ (false, fields)
  | some r ↦ (is_some r.vetoed_until, Dict.remove field fields)
]

-- `until.checked_duration_since(now)`, where there is an end.
abbrev pub retry_in : ℕ → Option (Option ℕ) → Option ℕ
retry_in now (some (some until)) = if leb now until then some (until - now) else none
retry_in now _ = none

unfoldable pub snapshot : ℕ → AutoDisabled → List AutoDisabledField
snapshot now fields =
    map
      (λ e. record {
        name = e.0;
        refusals = e.1.refusals;
        disabled = is_some e.1.vetoed_until;
        retry_in = retry_in now e.1.vetoed_until;
      })
      fields.entries
