-- ===== src/Api/Reading.antt =====
-- crates/sismatic-api-types/src/read.rs and group.rs: a read, a span of time, an expectation.
use sismatic.Common.{String, Bool, ◌&&◌, str_le}
use sismatic.Api.Value.{ReadValue}
use sismatic.Api.Write.{Timestamp}

pub record Read : Type 0 where
  pub device : String
  pub field : String
  pub value : ReadValue
  pub at : Timestamp

pub record TimeSpan : Type 0 where
  pub start : Timestamp
  pub end : Timestamp

-- Both ends count.
unfoldable pub within : TimeSpan → Timestamp → Bool
within s at = str_le s.start at && str_le at s.end

pub record GroupExpectation : Type 0 where
  pub field : String
  pub value : ReadValue
  pub since : Timestamp
