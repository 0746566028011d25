-- ===== src/Fleet/Inventory.antt =====
-- crates/sismatic-server/src/fleet.rs: the operations of `LiveInventory`, on the writes of
-- crates/sismatic-api-types/src/inventory.rs. `usize` lengths do not wrap.
use Prim.Native.String.{◌++◌ as ◌<>◌}
use sismatic.Common.{
  ℕ, String, Bool, not, Option, none, some, List, [], ◌∷◌, ◌==◌, find_first, select, length, eqb,
  Result, ok, err, ◌>>=◌, ok_or, if◌then◌else◌,
}
use mathlib.Core.List.{◌++◌}
use sismatic.Api.{Barrier}
use sismatic.Fleet.Config.{RawBarrier, RawDevice, RawGroup, RawConfig, Resolved}
use sismatic.Fleet.Summaries.{DeviceSummary, GroupSummary, summarize, summarize_group}
use sismatic.Fleet.Live.{InventoryRefusal, malformed, unknown}

pub record DeviceWrite : Type 0 where
  pub id : Option String
  pub host : String
  pub port : Option ℕ
  pub username : Option String
  pub password : Option String
  pub connect_secs : Option ℕ
  pub exchange_secs : Option ℕ
  pub eager : Option Bool
  pub sis_keepalive_secs : Option ℕ
  pub eager_retry_secs : Option ℕ
  pub cold_backoff_secs : Option ℕ
  pub disabled_fields : Option (List String)
  pub auto_disable_after : Option ℕ
  pub self_heal_secs : Option ℕ

pub record GroupWrite : Type 0 where
  pub id : Option String
  pub devices : List String
  pub barrier_timeout_secs : Option ℕ
  pub barrier : Option Barrier

pub record Removed : Type 0 where
  pub device : String
  pub writes_canceled : ℕ
  pub reads_dropped : Option ℕ

unfoldable pub raw_of_write : String → DeviceWrite → RawDevice
raw_of_write id write = record {
  id = id;
  host = write.host;
  port = write.port;
  username = write.username;
  password = write.password;
  connect_secs = write.connect_secs;
  exchange_secs = write.exchange_secs;
  eager = write.eager;
  sis_keepalive_secs = write.sis_keepalive_secs;
  eager_retry_secs = write.eager_retry_secs;
  cold_backoff_secs = write.cold_backoff_secs;
  disabled_fields = write.disabled_fields;
  auto_disable_after = write.auto_disable_after;
  self_heal_secs = write.self_heal_secs;
}

abbrev pub raw_barrier : Barrier → RawBarrier
raw_barrier Barrier.fail_batch = RawBarrier.fail_batch
raw_barrier Barrier.dispatch_ready = RawBarrier.dispatch_ready

unfoldable pub raw_of_group_write : String → GroupWrite → RawGroup
raw_of_group_write id write = record {
  id = id;
  devices = write.devices;
  barrier_timeout_secs = write.barrier_timeout_secs;
  barrier = elim write.barrier [ none ↦ none | some b ↦ some (raw_barrier b) ];
}

unfoldable pub summary_of : Resolved → String → Result DeviceSummary InventoryRefusal
unfolding find_first summarize
summary_of resolved id = elim (find_first (λ d. d.id == id) resolved.devices) [
  | some d ↦ ok (summarize d)
  | none ↦ err (malformed ("device '" <> id <> "' was not in the applied fleet"))
]

unfoldable pub group_summary_of : Resolved → String → Result GroupSummary InventoryRefusal
unfolding find_first summarize_group
group_summary_of resolved id = elim (find_first (λ g. g.id == id) resolved.groups) [
  | some g ↦ ok (summarize_group g)
  | none ↦ err (malformed ("group '" <> id <> "' was not in the applied fleet"))
]

-- The first that passes the test is another from now on; none where there is none.
unfoldable pub overwrite {ℓ} : {A : Type ℓ} → (A → Bool) → A → List A → Option (List A)
overwrite mine new [] = none
overwrite mine new (x ∷ xs) =
    let rest = overwrite mine new xs in
    if mine x then some (new ∷ xs) else elim rest [ none ↦ none | some ys ↦ some (x ∷ ys) ]

-- `retain`, refused where it leaves as many.
abbrev removing {ℓ} :
    {A : Type ℓ} → (A → Bool) → InventoryRefusal → List A → Result (List A) InventoryRefusal
unfolding select
removing mine refusal xs =
    let kept = select (λ x. not (mine x)) xs in
    if eqb (length kept) (length xs) then err refusal else ok kept

unfoldable pub push_device : RawDevice → RawConfig → Result RawConfig InventoryRefusal
push_device raw document = ok (record document { devices = document.devices ++ raw ∷ [] })

unfoldable pub push_group : RawGroup → RawConfig → Result RawConfig InventoryRefusal
push_group raw document = ok (record document { groups = document.groups ++ raw ∷ [] })

unfoldable pub put_device : String → RawDevice → RawConfig → Result RawConfig InventoryRefusal
unfolding overwrite
put_device id raw document = do
  devices ←
      ok_or (unknown ("no device '" <> id <> "' is configured"))
        (overwrite (λ d. d.id == id) raw document.devices)
  ok (record document { devices = devices })

unfoldable pub put_group : String → RawGroup → RawConfig → Result RawConfig InventoryRefusal
unfolding overwrite
put_group id raw document = do
  groups ←
      ok_or (unknown ("no group '" <> id <> "' is configured"))
        (overwrite (λ g. g.id == id) raw document.groups)
  ok (record document { groups = groups })

unfoldable pub drop_device : String → RawConfig → Result RawConfig InventoryRefusal
unfolding select
drop_device id document = do
  devices ←
      removing (λ d. d.id == id) (unknown ("no device '" <> id <> "' is configured"))
        document.devices
  ok (record document { devices = devices })

unfoldable pub drop_group : String → RawConfig → Result RawConfig InventoryRefusal
unfolding select
drop_group id document = do
  groups ←
      removing (λ g. g.id == id) (unknown ("no group '" <> id <> "' is configured")) document.groups
  ok (record document { groups = groups })

-- The identity that a replacement states must be the one of its path.
unfoldable pub stated_other : Option String → String → Option String
stated_other none id = none
stated_other (some stated) id = if stated == id then none else some stated
