-- ===== src/Codec/RoundTrip.antt =====
-- Values that are encoded for a type and decoded as that type.
use rctpower_protocol.Base.{ℕ, ◌<◌, ◌^◌, ◌≡◌, ◌≢◌, refl, ap, arith}
use rctpower_protocol.Base.{List, [], ◌∷◌, All, get_elem?-ne-none}
use rctpower_protocol.Base.Int.{ℤ, wrap, InSigned, InUnsigned}
use rctpower_protocol.Base.Int.{signed-wrap_8, signed-wrap_16, signed-wrap_32, wrap_16-lt}
use rctpower_protocol.Base.Int.{wrap_32-lt, pos-wrap}
use rctpower_protocol.Base.Bytes.{u16_from_be-u16_to_be, u32_from_be-u32_to_be}
use rctpower_protocol.Base.Text.{Text}
use rctpower_protocol.Base.Utf8.{from_utf8_lossy, from_utf8_lossy_ascii}
use rctpower_protocol.Error.{RctError, ok, err, panic, ◌>>=◌}
use rctpower_protocol.Types.DataType.{DataType, name}
use rctpower_protocol.Types.DataValue.{DataValue, Floats}
use rctpower_protocol.Codec.Encode.{encode_value, encode_for, normalize, to_i64}
use rctpower_protocol.Codec.Decode.{decode_value, before_nul}

-- `decode_value` never panics, for any type and any payload.
pub decode_value-ne-panic : (t : DataType) (xs : List ℕ) → decode_value t xs ≢ panic
unfolding decode_value
decode_value-ne-panic DataType.bool xs = ground (arith, get_elem?-ne-none xs 0)
decode_value-ne-panic _ xs = ground (
  arith,
  get_elem?-ne-none xs 0,
  get_elem?-ne-none xs 1,
  get_elem?-ne-none xs 2,
  get_elem?-ne-none xs 3,
)

-- The integers that an integer type can hold; no other type is one.
abbrev pub Holds : DataType → ℤ → Type 0
Holds DataType.uint8 z = InUnsigned 8 z
Holds DataType.uint16 z = InUnsigned 16 z
Holds DataType.uint32 z = InUnsigned 32 z
Holds DataType.int8 z = InSigned 7 z
Holds DataType.int16 z = InSigned 15 z
Holds DataType.int32 z = InSigned 31 z
Holds _ z = ⊥

-- The value of the type that stands for `z`.
abbrev pub value_of : DataType → ℤ → DataValue
value_of DataType.uint8 z = DataValue.u8 (wrap 8 z)
value_of DataType.uint16 z = DataValue.u16 (wrap 16 z)
value_of DataType.uint32 z = DataValue.u32 (wrap 32 z)
value_of DataType.int8 z = DataValue.i8 z
value_of DataType.int16 z = DataValue.i16 z
value_of _ z = DataValue.i32 z

-- An ASCII byte that is not zero.
abbrev pub IsPlain : ℕ → Type 0
IsPlain c = (0 < c) × (c < 128)

before_nul_plain : (s : Text) → All IsPlain s → before_nul s ≡ s
unfolding before_nul
before_nul_plain [] h = refl
before_nul_plain (c ∷ s) (h, hs) = ground (arith, before_nul_plain s hs)

All-ascii : (s : Text) → All IsPlain s → All (λ b. b < 128) s
All-ascii [] h = tt
All-ascii (c ∷ s) (h, hs) = (h.1, All-ascii s hs)

from_utf8_lossy_plain : (s : Text) → All IsPlain s → from_utf8_lossy s ≡ s
from_utf8_lossy_plain s h = from_utf8_lossy_ascii s (All-ascii s h)

module _ (floats : Floats) where
  normalize_int :
      (t : DataType) (v : DataValue) (z : ℤ)
      → to_i64 floats v ≡ ok z
      → Holds t z
      → normalize floats t v ≡ ok (value_of t z)
  unfolding normalize
  normalize_int DataType.uint8 v z e h = rw e refl
  normalize_int DataType.uint16 v z e h = rw e refl
  normalize_int DataType.uint32 v z e h = rw e refl
  normalize_int DataType.int8 v z e h = rw (e, signed-wrap_8 z h) refl
  normalize_int DataType.int16 v z e h = rw (e, signed-wrap_16 z h) refl
  normalize_int DataType.int32 v z e h = rw (e, signed-wrap_32 z h) refl
  normalize_int _ v z e h = elim h [ ]

  decode_value-encode_value_int :
      (t : DataType) (z : ℤ)
      → Holds t z
      → decode_value t (encode_value (value_of t z)) ≡ ok (value_of t z)
  unfolding decode_value encode_value
  decode_value-encode_value_int DataType.uint8 z h = refl
  decode_value-encode_value_int DataType.uint16 z h =
      rw (u16_from_be-u16_to_be (wrap 16 z) (wrap_16-lt z))
  decode_value-encode_value_int DataType.uint32 z h =
      rw (u32_from_be-u32_to_be (wrap 32 z) (wrap_32-lt z))
  decode_value-encode_value_int DataType.int8 z h = rw (signed-wrap_8 z h)
  decode_value-encode_value_int DataType.int16 z h =
      rw (u16_from_be-u16_to_be (wrap 16 z) (wrap_16-lt z), signed-wrap_16 z h)
  decode_value-encode_value_int DataType.int32 z h =
      rw (u32_from_be-u32_to_be (wrap 32 z) (wrap_32-lt z), signed-wrap_32 z h)
  decode_value-encode_value_int _ z h = elim h [ ]

  to_i64-value_of : (t : DataType) (z : ℤ) → Holds t z → to_i64 floats (value_of t z) ≡ ok z
  unfolding to_i64
  to_i64-value_of DataType.uint8 z h = ap ok (pos-wrap 8 z h)
  to_i64-value_of DataType.uint16 z h = ap ok (pos-wrap 16 z h)
  to_i64-value_of DataType.uint32 z h = ap ok (pos-wrap 32 z h)
  to_i64-value_of DataType.int8 z h = refl
  to_i64-value_of DataType.int16 z h = refl
  to_i64-value_of DataType.int32 z h = refl
  to_i64-value_of _ z h = elim h [ ]

  -- A value of any variant that `to_i64` takes for a number which an integer type can hold is
  -- encoded for the type, and decoded as the type's own value of that number, which `to_i64`
  -- takes for the same number.
  pub decode_value-encode_for_int :
      (t : DataType) (v : DataValue) (z : ℤ)
      → to_i64 floats v ≡ ok z
      → Holds t z
      → ((encode_for floats t v >>= decode_value t) ≡ ok (value_of t z))
        × (to_i64 floats (value_of t z) ≡ ok z)
  unfolding encode_for
  decode_value-encode_for_int t v z e h = (
    rw (normalize_int t v z e h, encode_for) (decode_value-encode_value_int t z h),
    to_i64-value_of t z h,
  )

  -- The 32 bits of a float, whatever they stand for, are encoded for a float and decoded as a
  -- float unchanged.
  pub decode_value-encode_for_float :
      (f : ℕ)
      → f < 2 ^ 32
      → (encode_for floats DataType.float (DataValue.f32 f) >>= decode_value DataType.float)
        ≡ ok (DataValue.f32 f)
  unfolding encode_for decode_value
  decode_value-encode_for_float f h = rw (u32_from_be-u32_to_be f h)

  -- A text of ASCII bytes that is not empty and holds no zero byte is encoded for a string and
  -- decoded as a string unchanged.
  pub decode_value-encode_for_string :
      (b : ℕ) (s : Text)
      → All IsPlain (b ∷ s)
      → (encode_for floats DataType.string (DataValue.str (b ∷ s)) >>= decode_value DataType.string)
        ≡ ok (DataValue.str (b ∷ s))
  unfolding encode_for decode_value
  decode_value-encode_for_string b s h =
      ground (arith, before_nul_plain (b ∷ s) h, from_utf8_lossy_plain (b ∷ s) h)

  -- What is encoded for an enumeration, of a value that `to_i64` takes for a number, is refused
  -- by the decoder of an enumeration: it is one byte, and four are wanted.
  pub enum_one_way :
      (v : DataValue) (z : ℤ)
      → to_i64 floats v ≡ ok z
      → (encode_for floats DataType.enum v >>= decode_value DataType.enum)
        ≡ err (RctError.payload_too_short (name DataType.enum) 1 4)
  unfolding encode_for decode_value
  enum_one_way v z e = rw e
