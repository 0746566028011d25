-- ===== src/Fleet/Summaries.antt =====
-- What the API shows of a device and of a group: crates/sismatic-api-types/src/device.rs, and
-- `summarize` and `summarize_group` of crates/sismatic-server/src/lib.rs.
use sismatic.Common.{ℕ, String, Bool, List, []}
use sismatic.Api.{Barrier}
use sismatic.Devices.AutoDisabled.{AutoDisabledField}
use sismatic.Catalog.Listing.{Summary}
use sismatic.Fleet.Config.{DeviceConfig, GroupConfig}
use sismatic.Fleet.Export.{as_secs}

pub data ConnectionStatus : Type 0 where
  warm busy cold gated unknown : ConnectionStatus

-- The last field is filled in by the handlers, and empty here.
pub record DeviceSummary : Type 0 where
  pub id : String
  pub uuid : String
  pub host : String
  pub port : ℕ
  pub eager : Bool
  pub status : ConnectionStatus
  pub disabled_fields : List String
  pub auto_disabled_fields : List AutoDisabledField

pub record GroupSummary : Type 0 where
  pub id : String
  pub members : List String
  pub barrier_timeout_secs : ℕ
  pub barrier : Barrier

unfoldable pub summarize : DeviceConfig → DeviceSummary
summarize config = record {
  id = config.id;
  uuid = config.uuid;
  host = config.host;
  port = config.port;
  eager = config.eager;
  status = ConnectionStatus.unknown;
  disabled_fields = config.disabled_fields;
  auto_disabled_fields = [];
}

unfoldable pub summarize_group : GroupConfig → GroupSummary
summarize_group config = record {
  id = config.id;
  members = config.device_ids;
  barrier_timeout_secs = as_secs config.barrier_timeout;
  barrier = config.barrier;
}

abbrev pub device_summary : Summary DeviceSummary
device_summary = record { id = λ s. s.id }

abbrev pub group_summary : Summary GroupSummary
group_summary = record { id = λ s. s.id }
