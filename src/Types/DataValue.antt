-- ===== src/Types/DataValue.antt =====
-- `DataValue` of src/types.rs with its `Display`, and the operations of Rust's f32 that the
-- library uses. An f32 is its bit pattern, a number below 2 ^ 32.
use rctpower_protocol.Base.{ℕ, ◌%◌, ◌^◌, Bool, true, false, not, ◌&&◌, ◌||◌}
use rctpower_protocol.Base.{List, ◌++◌, ltb, ◌==◌}
use rctpower_protocol.Base.Int.{ℤ, pos, negsuc}
use rctpower_protocol.Base.Bytes.{codes}
use rctpower_protocol.Base.Text.{Text, text_eq, hex, decimal, decimal_int}

-- `to_i64` is `f as i64`, `of_i64` is `i as f32`, `shown` is `f.to_string()`.
pub record Floats : Type 0 where
  pub to_i64 : ℕ → ℤ
  pub of_i64 : ℤ → ℕ
  pub shown : ℕ → Text

pub data DataValue : Type 0 where
  bool : Bool → DataValue
  i8 : ℤ → DataValue
  u8 : ℕ → DataValue
  i16 : ℤ → DataValue
  u16 : ℕ → DataValue
  i32 : ℤ → DataValue
  u32 : ℕ → DataValue
  f32 : ℕ → DataValue
  str : Text → DataValue
  raw : List ℕ → DataValue

-- `Display for DataValue`, as `to_string` gives it.
unfoldable pub to_string : Floats → DataValue → Text
unfolding hex decimal decimal_int
to_string floats (bool true) = codes "true"
to_string floats (bool false) = codes "false"
to_string floats (i8 v) = decimal_int v
to_string floats (u8 v) = decimal v
to_string floats (i16 v) = decimal_int v
to_string floats (u16 v) = decimal v
to_string floats (i32 v) = decimal_int v
to_string floats (u32 v) = decimal v
to_string floats (f32 v) = floats.shown v
to_string floats (str s) = s
to_string floats (raw b) = codes "0x" ++ hex b

-- IEEE equality of two f32: no NaN equals anything, the two zeros are equal.
f32_is_nan : ℕ → Bool
f32_is_nan f = ltb 0x7f800000 (f % 2 ^ 31)

f32_eq : ℕ → ℕ → Bool
unfolding f32_is_nan
f32_eq f g =
    not (f32_is_nan f)
    && not (f32_is_nan g)
    && ((f == g) || ((f % 2 ^ 31 == 0) && (g % 2 ^ 31 == 0)))

bool_eq : Bool → Bool → Bool
bool_eq true b = b
bool_eq false b = not b

int_eq : ℤ → ℤ → Bool
int_eq (pos m) (pos n) = m == n
int_eq (negsuc m) (negsuc n) = m == n
int_eq _ _ = false

-- The derived `PartialEq`: equal variants with equal fields.
unfoldable pub value_eq : DataValue → DataValue → Bool
unfolding f32_eq bool_eq int_eq
value_eq (bool v) (bool w) = bool_eq v w
value_eq (i8 v) (i8 w) = int_eq v w
value_eq (u8 v) (u8 w) = v == w
value_eq (i16 v) (i16 w) = int_eq v w
value_eq (u16 v) (u16 w) = v == w
value_eq (i32 v) (i32 w) = int_eq v w
value_eq (u32 v) (u32 w) = v == w
value_eq (f32 v) (f32 w) = f32_eq v w
value_eq (str v) (str w) = text_eq v w
value_eq (raw v) (raw w) = text_eq v w
value_eq _ _ = false
