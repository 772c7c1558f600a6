-- ===== src/Writable.antt =====
-- src/writable.rs: the table WRITABLE, `rule_for`, `validate` and `parse_value`. The registry that
-- `registry()` gives is an argument; an f64 is its bit pattern; `parse_f32` is the `parse` of f32.
pub mod Double
pub mod Value
pub mod Real
pub mod Cast
pub mod Texts
pub mod Range
pub mod Parsing
use rctpower_protocol.Base.{ℕ, ◌%◌, ◌^◌, ◌-◌, ◌+◌, Bool, true, false, ◌&&◌}
use rctpower_protocol.Base.{Option, none, some, List, [], ◌∷◌, map, length, leb, ltb}
use rctpower_protocol.Base.{if◌then◌else◌}
use rctpower_protocol.Base.Int.{ℤ, pos, wrap, signed}
use rctpower_protocol.Base.Bytes.{codes}
use rctpower_protocol.Base.Text.{Text, text_eq}
use rctpower_protocol.Base.Strings.{contains, behind, parse_signed}
use rctpower_protocol.Error.{RctError, Result, ok, err, panic, ◌>>=◌}
use rctpower_protocol.Types.DataType.{DataType}
use rctpower_protocol.Types.DataValue.{DataValue, Floats, to_string}
use rctpower_protocol.Registry.{ObjectInfo}
use rctpower_protocol.Registry.Build.{Registry, get_by_name}
use rctpower_protocol.Writable.Double.{is_nan, le, of_int, of_f32}

pub record Rule : Type 0 where
  pub name : Text
  pub min : ℕ
  pub max : ℕ
  pub decimals : ℕ

abbrev rule : Text → ℕ → ℕ → ℕ → Rule
rule name min max decimals = record { name = name; min = min; max = max; decimals = decimals }

-- The bounds are the patterns of the f64 literals: 1.0 is 0x3ff0000000000000, 5.0 is
-- 0x4014000000000000, 0.05 is 0x3fa999999999999a, 6000.0 is 0x40b7700000000000, 999999.0 is
-- 0x412e847e00000000, NAN is 0x7ff8000000000000; a negative number has the highest bit too.
abbrev pub writable : List Rule
writable =
    rule (codes "power_mng.soc_strategy") 0 0x4014000000000000 0
    ∷ rule (codes "power_mng.soc_target_set") 0 0x3ff0000000000000 2
    ∷ rule (codes "power_mng.battery_power_extern") 0xc0b7700000000000 0x40b7700000000000 2
    ∷ rule (codes "power_mng.soc_min") 0x3fa999999999999a 0x3ff0000000000000 2
    ∷ rule (codes "power_mng.soc_max") 0 0x3ff0000000000000 2
    ∷ rule (codes "power_mng.soc_charge_power") 0xc12e847e00000000 0x412e847e00000000 2
    ∷ rule (codes "power_mng.soc_charge") 0xc12e847e00000000 0x412e847e00000000 2
    ∷ rule (codes "p_rec_lim[1]") 0 0x40b7700000000000 2
    ∷ rule (codes "power_mng.use_grid_power_enable") 0x7ff8000000000000 0x7ff8000000000000 0
    ∷ rule (codes "buf_v_control.power_reduction") 0 0x3ff0000000000000 3
    ∷ []

unfoldable pub find_rule : Text → List Rule → Option Rule
find_rule name [] = none
find_rule name (r ∷ rs) = if text_eq r.name name then some r else find_rule name rs

unfoldable pub rule_for : Text → Option Rule
unfolding find_rule text_eq
rule_for name = find_rule name writable

-- The variants that are numbers, as f64.
unfoldable pub as_f64 : DataValue → Option ℕ
unfolding of_int of_f32
as_f64 (DataValue.f32 f) = some (of_f32 f)
as_f64 (DataValue.i8 i) = some (of_int i)
as_f64 (DataValue.u8 i) = some (of_int (pos i))
as_f64 (DataValue.i16 i) = some (of_int i)
as_f64 (DataValue.u16 i) = some (of_int (pos i))
as_f64 (DataValue.i32 i) = some (of_int i)
as_f64 (DataValue.u32 i) = some (of_int (pos i))
as_f64 _ = none

abbrev is_bool_value : DataValue → Bool
is_bool_value (DataValue.bool b) = true
is_bool_value _ = false

abbrev pub is_bool_type : DataType → Bool
is_bool_type DataType.bool = true
is_bool_type _ = false

-- Too many bytes behind the first `.`.
unfoldable pub too_precise : ℕ → Text → Bool
unfolding behind
too_precise decimals s = elim (behind b'.' s) [
  | none ↦ false
  | some frac ↦ ltb decimals (length frac % 2 ^ 32)
]

-- The range and the decimals.
unfoldable pub check_number : Floats → Rule → Text → DataValue → ℕ → Result (Unit {0})
unfolding too_precise to_string le
check_number floats r name value v =
    if le r.min v && le v r.max
    then (if too_precise r.decimals (to_string floats value)
        then err (RctError.invalid_value name (to_string floats value))
        else ok tt)
    else err (RctError.value_out_of_range name v r.min r.max)

-- `validate` behind the two lookups.
unfoldable pub check : Floats → Rule → Text → DataValue → Result (Unit {0})
unfolding check_number is_nan as_f64
check floats r name value =
    if is_nan r.min
    then (if is_bool_value value
        then ok tt
        else err (RctError.invalid_value name (to_string floats value)))
    else elim (as_f64 value) [
      | none ↦ err (RctError.invalid_value name (to_string floats value))
      | some v ↦ check_number floats r name value v
    ]

unfoldable pub validate : Registry → Floats → Text → DataValue → Result (Unit {0})
unfolding check rule_for
validate reg floats name value = elim (rule_for name) [
  | none ↦ err (RctError.invalid_value name (to_string floats value))
  | some r ↦ elim (get_by_name reg name) [
    | none ↦ err (RctError.invalid_value name (to_string floats value))
    | some obj ↦ check floats r name value
  ]
]

-- `to_ascii_lowercase`.
unfoldable pub lowercase : Text → Text
lowercase s = map (λ c. if leb b'A' c && leb c b'Z' then c + 32 else c) s

unfoldable pub parse_bool : Text → Text → Result DataValue
unfolding lowercase text_eq
parse_bool name raw =
    if text_eq (lowercase raw) (codes "true")
    then ok (DataValue.bool true)
    else if text_eq (lowercase raw) (codes "false")
    then ok (DataValue.bool false)
    else err (RctError.invalid_value name raw)

-- The casts of an i64, by the type.
unfoldable pub cast : Floats → DataType → ℤ → DataValue
cast floats DataType.float i = DataValue.f32 (floats.of_i64 i)
cast floats DataType.enum i = DataValue.u8 (wrap 8 i)
cast floats DataType.uint8 i = DataValue.u8 (wrap 8 i)
cast floats DataType.int8 i = DataValue.i8 (signed 7 (wrap 8 i))
cast floats DataType.uint16 i = DataValue.u16 (wrap 16 i)
cast floats DataType.int16 i = DataValue.i16 (signed 15 (wrap 16 i))
cast floats DataType.uint32 i = DataValue.u32 (wrap 32 i)
cast floats _ i = DataValue.i32 (signed 31 (wrap 32 i))

unfoldable pub parse_number : Floats → (Text → Option ℕ) → DataType → Text → Text → Result DataValue
unfolding cast contains parse_signed
parse_number floats parse_f32 t name raw =
    if contains (codes ".") raw
    then elim (parse_f32 raw) [
      | none ↦ err (RctError.invalid_value name raw)
      | some f ↦ ok (DataValue.f32 f)
    ]
    else elim (parse_signed (2 ^ 63 - 1) raw) [
      | none ↦ err (RctError.invalid_value name raw)
      | some i ↦ ok (cast floats t i)
    ]

-- A panic is the `unwrap` of the lookup in the registry.
unfoldable pub parse_value : Registry → Floats → (Text → Option ℕ) → Text → Text → Result DataValue
unfolding parse_number parse_bool rule_for
parse_value reg floats parse_f32 name raw = elim (rule_for name) [
  | none ↦ err (RctError.invalid_value name raw)
  | some r ↦ elim (get_by_name reg name) [
    | none ↦ panic
    | some obj ↦
        if is_bool_type obj.request_data_type
        then parse_bool name raw
        else parse_number floats parse_f32 obj.request_data_type name raw
  ]
]
