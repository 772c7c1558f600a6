-- ===== src/Writable/Range.antt =====
-- Which integers `validate` of src/writable.rs accepts.
use rctpower_protocol.Base.{ℕ, ◌≡◌, refl, ap, ◌∙◌, arith}
use rctpower_protocol.Base.{false, ◌&&◌, Option, none, some, if◌then◌else◌}
use rctpower_protocol.Base.Int.{ℤ, pos}
use rctpower_protocol.Base.Text.{Text, decimal_int}
use rctpower_protocol.Error.{RctError, ok, err}
use rctpower_protocol.Types.DataValue.{DataValue, Floats, to_string}
use rctpower_protocol.Registry.{ObjectInfo}
use rctpower_protocol.Registry.Build.{Registry, get_by_name}
use rctpower_protocol.Writable.{Rule, rule_for, as_f64, too_precise, check_number, check}
use rctpower_protocol.Writable.{validate}
use rctpower_protocol.Writable.Double.{is_nan, le, of_int, le_int, le-of_int, IsExact}
use rctpower_protocol.Writable.Double.{is_nan-of_int}
use rctpower_protocol.Writable.Texts.{decimal_int-Without_point}
use rctpower_protocol.Writable.Texts.{behind-Without}

-- The integer that a value holds.
abbrev pub as_int : DataValue → Option ℤ
as_int (DataValue.i8 i) = some i
as_int (DataValue.u8 i) = some (pos i)
as_int (DataValue.i16 i) = some i
as_int (DataValue.u16 i) = some (pos i)
as_int (DataValue.i32 i) = some i
as_int (DataValue.u32 i) = some (pos i)
as_int _ = none

as_f64-as_int : (v : DataValue) (z : ℤ) → as_int v ≡ some z → as_f64 v ≡ some (of_int z)
unfolding as_f64
as_f64-as_int v z h = ground arith

to_string-as_int :
    (floats : Floats) (v : DataValue) (z : ℤ)
    → as_int v ≡ some z
    → to_string floats v ≡ decimal_int z
unfolding to_string decimal_int
to_string-as_int floats v z h = ground arith

too_precise-decimal_int : (decimals : ℕ) (z : ℤ) → too_precise decimals (decimal_int z) ≡ false
unfolding too_precise
too_precise-decimal_int decimals z =
    rw (behind-Without b'.' (decimal_int z) (decimal_int-Without_point z), too_precise) refl

-- The parameter has a rule, whose bounds are integers, and is in the registry; the value is an
-- integer of any variant; the bounds and the value lie between -(2 ^ 53) and 2 ^ 53. Then
-- `validate` accepts the value when it lies between the bounds of the rule, themselves included,
-- and otherwise answers that it is out of range, with the value and the bounds.
pub validate-as_int :
    (reg : Registry) (floats : Floats) (name : Text) (r : Rule) (obj : ObjectInfo) (v : DataValue)
    (lo hi z : ℤ)
    → rule_for name ≡ some r
    → get_by_name reg name ≡ some obj
    → r.min ≡ of_int lo
    → r.max ≡ of_int hi
    → as_int v ≡ some z
    → IsExact lo
    → IsExact hi
    → IsExact z
    → validate reg floats name v ≡ (
        if le_int lo z && le_int z hi
        then ok tt
        else err (RctError.value_out_of_range name (of_int z) r.min r.max))
unfolding validate check check_number
validate-as_int reg floats name r obj v lo hi z ruled known low high int hl hh hz =
    rw
      (
        ruled,
        known,
        ap is_nan low ∙ is_nan-of_int lo hl,
        as_f64-as_int v z int,
        ap (λ d. le d (of_int z)) low ∙ le-of_int lo z hl hz,
        ap (le (of_int z)) high ∙ le-of_int z hi hz hh,
        to_string-as_int floats v z int,
        too_precise-decimal_int r.decimals z,
        validate,
      )
      refl
