-- ===== src/Fleet/Config.antt =====
-- crates/sismatic-core/src/devices/config.rs: the devices file as it is written (`Raw…`) and as it is
-- resolved. A duration counts nanoseconds; a password is its text, a `Uuid` its text.
use sismatic.Common.{ℕ, String, Bool, Option, List, ◌*◌, ◌^◌}
use sismatic.Api.{Barrier}

pub data RawBarrier : Type 0 where
  fail_batch dispatch_ready : RawBarrier

pub record Defaults : Type 0 where
  pub port : Option ℕ  -- u16
  pub username : Option String
  pub password : Option String
  pub connect_secs : Option ℕ  -- u64, as every key in seconds
  pub exchange_secs : Option ℕ
  pub eager : Option Bool
  pub sis_keepalive_secs : Option ℕ
  pub eager_retry_secs : Option ℕ
  pub cold_backoff_secs : Option ℕ
  pub disabled_fields : Option (List String)
  pub auto_disable_after : Option ℕ  -- u32
  pub self_heal_secs : Option ℕ

pub record RawDevice : Type 0 where
  pub id : String
  pub host : String
  pub port : Option ℕ
  pub username : Option String
  pub password : Option String
  pub connect_secs : Option ℕ
  pub exchange_secs : Option ℕ
  pub eager : Option Bool
  pub sis_keepalive_secs : Option ℕ
  pub eager_retry_secs : Option ℕ
  pub cold_backoff_secs : Option ℕ
  pub disabled_fields : Option (List String)
  pub auto_disable_after : Option ℕ
  pub self_heal_secs : Option ℕ

pub record RawGroup : Type 0 where
  pub id : String
  pub devices : List String
  pub barrier_timeout_secs : Option ℕ
  pub barrier : Option RawBarrier

pub record RawConfig : Type 0 where
  pub defaults : Defaults
  pub devices : List RawDevice
  pub groups : List RawGroup

pub record DeviceConfig : Type 0 where
  pub uuid : String
  pub id : String
  pub host : String
  pub port : ℕ
  pub username : String
  pub password : String
  pub connect_timeout : ℕ
  pub exchange_timeout : ℕ
  pub eager : Bool
  pub sis_keepalive : Option ℕ
  pub eager_retry : Option ℕ
  pub cold_backoff : Option ℕ
  pub disabled_fields : List String  -- a `BTreeSet`
  pub auto_disable_after : ℕ
  pub self_heal : Option ℕ

-- The core's `Barrier` and the one of the API have the same two names, and one type stands for both.
pub record GroupConfig : Type 0 where
  pub id : String
  pub device_ids : List String
  pub barrier_timeout : ℕ
  pub barrier : Barrier

pub record Resolved : Type 0 where
  pub devices : List DeviceConfig
  pub groups : List GroupConfig

pub data ConfigError : Type 0 where
  io parse unsupported_format duplicate_id : String → ConfigError
  missing_field unknown_disabled_field : String → String → ConfigError
  empty_group : String → ConfigError
  unknown_group_member : String → String → ConfigError

-- `Duration::from_secs`.
abbrev pub from_secs : ℕ → ℕ
from_secs secs = secs * 10 ^ 9
