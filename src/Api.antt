-- ===== src/Api.antt =====
-- crates/sismatic-api-types: the types that cross the process's boundaries. The string newtypes
-- `Timestamp` and the aliases `DeviceId`, `GroupId`, `FieldName`, `WriteId` and `BatchId` are texts.
mod Value
mod Write
mod Reading
mod Groups
unfoldable pub use Value.*
pub use Write.*
unfoldable pub use Reading.*
pub use Groups.*
