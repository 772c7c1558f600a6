-- ===== src/Types/DataType.antt =====
-- `DataType` of src/types.rs: the enum and its names.
pub mod Laws
use rctpower_protocol.Base.{Option, none, some, List, [], ◌∷◌, if◌then◌else◌}
use rctpower_protocol.Base.Bytes.{codes}
use rctpower_protocol.Base.Text.{Text, text_eq}

pub data DataType : Type 0 where
  unknown bool uint8 int8 uint16 int16 uint32 int32 enum float string : DataType
  timeseries event_table : DataType
  battery_module_status battery_module_statistics battery_module_resistance : DataType

unfoldable pub name : DataType → Text
name unknown = codes "UNKNOWN"
name bool = codes "BOOL"
name uint8 = codes "UINT8"
name int8 = codes "INT8"
name uint16 = codes "UINT16"
name int16 = codes "INT16"
name uint32 = codes "UINT32"
name int32 = codes "INT32"
name enum = codes "ENUM"
name float = codes "FLOAT"
name string = codes "STRING"
name timeseries = codes "TIMESERIES"
name event_table = codes "EVENT_TABLE"
name battery_module_status = codes "BATTERY_MODULE_STATUS"
name battery_module_statistics = codes "BATTERY_MODULE_STATISTICS"
name battery_module_resistance = codes "BATTERY_MODULE_RESISTANCE"

-- The arms of the match in `from_str_name`.
abbrev pub arms : List (Text × DataType)
arms =
    (codes "UNKNOWN", unknown)
    ∷ (codes "BOOL", bool)
    ∷ (codes "UINT8", uint8)
    ∷ (codes "INT8", int8)
    ∷ (codes "UINT16", uint16)
    ∷ (codes "INT16", int16)
    ∷ (codes "UINT32", uint32)
    ∷ (codes "INT32", int32)
    ∷ (codes "ENUM", enum)
    ∷ (codes "FLOAT", float)
    ∷ (codes "STRING", string)
    ∷ (codes "TIMESERIES", timeseries)
    ∷ (codes "EVENT_TABLE", event_table)
    ∷ (codes "BATTERY_MODULE_STATUS", battery_module_status)
    ∷ (codes "BATTERY_MODULE_STATISTICS", battery_module_statistics)
    ∷ (codes "BATTERY_MODULE_RESISTANCE", battery_module_resistance)
    ∷ []

-- The first arm whose text is the one given.
unfoldable pub match_arms : Text → List (Text × DataType) → Option DataType
unfolding text_eq
match_arms s [] = none
match_arms s ((text, t) ∷ rest) = if text_eq s text then some t else match_arms s rest

unfoldable pub from_str_name : Text → Option DataType
unfolding match_arms
from_str_name s = match_arms s arms
