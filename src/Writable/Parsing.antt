-- ===== src/Writable/Parsing.antt =====
-- What `parse_value` of src/writable.rs makes of the text of a value.
use rctpower_protocol.Base.{ℕ, ◌-◌, ◌≤◌, ◌<◌, ◌^◌, ◌%◌, ◌≡◌, refl, sym, ap, ◌∙◌}
use rctpower_protocol.Base.{arith, true, false, Option, some, if◌then◌else◌}
use rctpower_protocol.Base.Int.{ℤ, pos, negsuc, InSigned, signed-wrap_8}
use rctpower_protocol.Base.Int.{signed-wrap_16, signed-wrap_32}
use rctpower_protocol.Base.Text.{Text, decimal, decimal_int, text_eq}
use rctpower_protocol.Base.Strings.Digits.{parse_signed-decimal_int, InRange}
use rctpower_protocol.Error.{Result, ok}
use rctpower_protocol.Types.DataType.{DataType}
use rctpower_protocol.Types.DataValue.{DataValue, Floats, to_string}
use rctpower_protocol.Registry.{ObjectInfo}
use rctpower_protocol.Registry.Build.{Registry, get_by_name}
use rctpower_protocol.Writable.{Rule, rule_for, parse_value, parse_number, parse_bool, cast}
use rctpower_protocol.Writable.{lowercase, is_bool_type}
use rctpower_protocol.Writable.Texts.{decimal_int-Without_point, contains-Without_point}

parse_number-decimal_int :
    (floats : Floats) (parse_f32 : Text → Option ℕ) (t : DataType) (name : Text) (z : ℤ)
    → InRange (2 ^ 63 - 1) z
    → parse_number floats parse_f32 t name (decimal_int z) ≡ ok (cast floats t z)
unfolding parse_number
parse_number-decimal_int floats parse_f32 t name z small =
    rw
      (
        contains-Without_point (decimal_int z) (decimal_int-Without_point z),
        parse_signed-decimal_int (2 ^ 63 - 1) z small,
        parse_number,
      )
      refl

-- The values of a type that are no floats and no texts: a truth value, or an integer in range. For
-- an enumeration they are those that `parse_value` can give.
abbrev pub IsOf : DataType → DataValue → Type 0
IsOf DataType.bool (DataValue.bool b) = Unit {0}
IsOf DataType.enum (DataValue.u8 n) = n < 2 ^ 8
IsOf DataType.uint8 (DataValue.u8 n) = n < 2 ^ 8
IsOf DataType.int8 (DataValue.i8 z) = InSigned 7 z
IsOf DataType.uint16 (DataValue.u16 n) = n < 2 ^ 16
IsOf DataType.int16 (DataValue.i16 z) = InSigned 15 z
IsOf DataType.uint32 (DataValue.u32 n) = n < 2 ^ 32
IsOf DataType.int32 (DataValue.i32 z) = InSigned 31 z
IsOf _ _ = ⊥

InSigned-InRange_8 : (z : ℤ) → InSigned 7 z → InRange (2 ^ 63 - 1) z
InSigned-InRange_8 (pos n) h = omega (arith, h)
InSigned-InRange_8 (negsuc n) h = omega (arith, h)

InSigned-InRange_16 : (z : ℤ) → InSigned 15 z → InRange (2 ^ 63 - 1) z
InSigned-InRange_16 (pos n) h = omega (arith, h)
InSigned-InRange_16 (negsuc n) h = omega (arith, h)

InSigned-InRange_32 : (z : ℤ) → InSigned 31 z → InRange (2 ^ 63 - 1) z
InSigned-InRange_32 (pos n) h = omega (arith, h)
InSigned-InRange_32 (negsuc n) h = omega (arith, h)

-- `parse_value` behind its lookups.
parse_by_type : Floats → (Text → Option ℕ) → DataType → Text → Text → Result DataValue
parse_by_type floats parse_f32 t name raw =
    if is_bool_type t then parse_bool name raw else parse_number floats parse_f32 t name raw

module _ (floats : Floats) (parse_f32 : Text → Option ℕ) (name : Text) where
  parse_by_type-to_string :
      (t : DataType) (v : DataValue)
      → IsOf t v
      → parse_by_type floats parse_f32 t name (to_string floats v) ≡ ok v
  unfolding parse_by_type parse_bool lowercase text_eq to_string cast decimal_int
  parse_by_type-to_string DataType.bool (DataValue.bool true) h = refl
  parse_by_type-to_string DataType.bool (DataValue.bool false) h = refl
  parse_by_type-to_string DataType.enum (DataValue.u8 n) h =
      parse_number-decimal_int floats parse_f32 DataType.enum name (pos n) (omega (arith, h))
      ∙ ap (λ k. ok (DataValue.u8 k)) (omega (arith, h))
  parse_by_type-to_string DataType.uint8 (DataValue.u8 n) h =
      parse_number-decimal_int floats parse_f32 DataType.uint8 name (pos n) (omega (arith, h))
      ∙ ap (λ k. ok (DataValue.u8 k)) (omega (arith, h))
  parse_by_type-to_string DataType.uint16 (DataValue.u16 n) h =
      parse_number-decimal_int floats parse_f32 DataType.uint16 name (pos n) (omega (arith, h))
      ∙ ap (λ k. ok (DataValue.u16 k)) (omega (arith, h))
  parse_by_type-to_string DataType.uint32 (DataValue.u32 n) h =
      parse_number-decimal_int floats parse_f32 DataType.uint32 name (pos n) (omega (arith, h))
      ∙ ap (λ k. ok (DataValue.u32 k)) (omega (arith, h))
  parse_by_type-to_string DataType.int8 (DataValue.i8 z) h =
      parse_number-decimal_int floats parse_f32 DataType.int8 name z (InSigned-InRange_8 z h)
      ∙ ap (λ y. ok (DataValue.i8 y)) (signed-wrap_8 z h)
  parse_by_type-to_string DataType.int16 (DataValue.i16 z) h =
      parse_number-decimal_int floats parse_f32 DataType.int16 name z (InSigned-InRange_16 z h)
      ∙ ap (λ y. ok (DataValue.i16 y)) (signed-wrap_16 z h)
  parse_by_type-to_string DataType.int32 (DataValue.i32 z) h =
      parse_number-decimal_int floats parse_f32 DataType.int32 name z (InSigned-InRange_32 z h)
      ∙ ap (λ y. ok (DataValue.i32 y)) (signed-wrap_32 z h)
  parse_by_type-to_string _ _ h = absurd h

  parse_by_type-wraps :
      (t : DataType) (m n : ℕ)
      → cast floats t (pos m) ≡ DataValue.u8 (m % 2 ^ 8)
      → cast floats t (pos n) ≡ DataValue.u8 (n % 2 ^ 8)
      → is_bool_type t ≡ false
      → m ≤ 2 ^ 63 - 1
      → n ≤ 2 ^ 63 - 1
      → m % 2 ^ 8 ≡ n % 2 ^ 8
      → parse_by_type floats parse_f32 t name (decimal m)
        ≡ parse_by_type floats parse_f32 t name (decimal n)
  unfolding parse_by_type decimal_int
  parse_by_type-wraps t m n em en number hm hn same = rw number (
      parse_number-decimal_int floats parse_f32 t name (pos m) hm
      ∙ ap ok em
      ∙ ap (λ k. ok (DataValue.u8 k)) same
      ∙ ap ok (sym en)
      ∙ sym (parse_number-decimal_int floats parse_f32 t name (pos n) hn))

module _ (reg : Registry) (floats : Floats) (parse_f32 : Text → Option ℕ) (name : Text) (r : Rule)
    (obj : ObjectInfo) (ruled : rule_for name ≡ some r)
    (known : get_by_name reg name ≡ some obj) where
  parse_value_found :
      (raw : Text)
      → parse_value reg floats parse_f32 name raw
        ≡ parse_by_type floats parse_f32 obj.request_data_type name raw
  unfolding parse_value parse_by_type
  parse_value_found raw = rw (ruled, known, parse_value) refl

-- The parameter has a rule and is in the registry. A truth value, or an integer in the range of
-- the parameter's type (bytes for an enumeration), is printed by `to_string`; `parse_value` gives
-- the same value of the text.
pub parse_value-to_string :
    (reg : Registry) (floats : Floats) (parse_f32 : Text → Option ℕ) (name : Text) (r : Rule)
    (obj : ObjectInfo) (v : DataValue)
    → rule_for name ≡ some r
    → get_by_name reg name ≡ some obj
    → IsOf obj.request_data_type v
    → parse_value reg floats parse_f32 name (to_string floats v) ≡ ok v
parse_value-to_string reg floats parse_f32 name r obj v ruled known fits =
    parse_value_found reg floats parse_f32 name r obj ruled known (to_string floats v)
    ∙ parse_by_type-to_string floats parse_f32 name obj.request_data_type v fits

-- The parameter has a rule and is an enumeration in the registry. Two numbers below 2 ^ 63 that
-- leave the same remainder by 256 are parsed to the same value: one that is too large for a byte is
-- not refused.
pub parse_value-wraps :
    (reg : Registry) (floats : Floats) (parse_f32 : Text → Option ℕ) (name : Text) (r : Rule)
    (obj : ObjectInfo) (m n : ℕ)
    → rule_for name ≡ some r
    → get_by_name reg name ≡ some obj
    → obj.request_data_type ≡ DataType.enum
    → m ≤ 2 ^ 63 - 1
    → n ≤ 2 ^ 63 - 1
    → m % 2 ^ 8 ≡ n % 2 ^ 8
    → parse_value reg floats parse_f32 name (decimal m)
      ≡ parse_value reg floats parse_f32 name (decimal n)
unfolding cast
parse_value-wraps reg floats parse_f32 name r obj m n ruled known enum hm hn same =
    let found = parse_value_found reg floats parse_f32 name r obj ruled known in
    found (decimal m)
    ∙ ap (λ t. parse_by_type floats parse_f32 t name (decimal m)) enum
    ∙ parse_by_type-wraps floats parse_f32 name DataType.enum m n refl refl refl hm hn same
    ∙ ap (λ t. parse_by_type floats parse_f32 t name (decimal n)) (sym enum)
    ∙ sym (found (decimal n))
