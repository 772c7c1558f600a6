-- ===== src/Registry.antt =====
-- `ObjectInfo` of src/registry.rs. An index is an i32.
pub mod Build
pub mod Table
pub mod Json
pub mod Count
pub mod Meta
pub mod Generated
pub mod Enum
pub mod Lookup
use rctpower_protocol.Base.{ℕ}
use rctpower_protocol.Base.Int.{ℤ}
use rctpower_protocol.Base.Text.{Text}
use rctpower_protocol.Types.ObjectGroup.{ObjectGroup}
use rctpower_protocol.Types.DataType.{DataType}

pub record ObjectInfo : Type 0 where
  pub group : ObjectGroup
  pub object_id : ℕ
  pub index : ℤ
  pub name : Text
  pub request_data_type : DataType
  pub response_data_type : DataType
  pub unit : Text
  pub description : Text
  pub enum_map_raw : Text
