-- ===== src/Codec/Decode.antt =====
-- `decode_value` of src/codec.rs.
use rctpower_protocol.Base.{ℕ, not, Option, none, some, List, [], ◌∷◌}
use rctpower_protocol.Base.{◌==◌, ltb, if◌then◌else◌, length, get_elem?}
use rctpower_protocol.Base.Int.{signed}
use rctpower_protocol.Base.Bytes.{u16_from_be, u32_from_be}
use rctpower_protocol.Base.Utf8.{from_utf8_lossy}
use rctpower_protocol.Error.{RctError, Result, ok, err, panic, ◌>>=◌}
use rctpower_protocol.Types.DataType.{DataType, name}
use rctpower_protocol.Types.DataValue.{DataValue}

-- `xs[i]`, which panics out of range.
abbrev pub index : List ℕ → ℕ → Result ℕ
index xs i = elim (get_elem? xs i) [ none ↦ panic | some x ↦ ok x ]

-- `u16::from_be_bytes([xs[i], xs[i + 1]])`, given both indices.
abbrev pub be_u16 : List ℕ → ℕ → ℕ → Result ℕ
be_u16 xs i j = do a ← index xs i; b ← index xs j; ok (u16_from_be a b)

abbrev pub be_u32 : List ℕ → ℕ → ℕ → ℕ → ℕ → Result ℕ
be_u32 xs i j k l = do
  a ← index xs i
  b ← index xs j
  c ← index xs k
  d ← index xs l
  ok (u32_from_be a b c d)

-- How many bytes the type needs; `none` for the composite types, which are returned raw.
unfoldable pub need : DataType → Option ℕ
need DataType.bool = some 1
need DataType.uint8 = some 1
need DataType.int8 = some 1
need DataType.uint16 = some 2
need DataType.int16 = some 2
need DataType.enum = some 4
need DataType.uint32 = some 4
need DataType.int32 = some 4
need DataType.float = some 4
need DataType.string = some 1
need _ = none

-- The bytes before the first zero byte, or all of them.
unfoldable pub before_nul : List ℕ → List ℕ
before_nul [] = []
before_nul (b ∷ bs) = if b == 0 then [] else b ∷ before_nul bs

-- The second match of `decode_value`; its last arm is `unreachable!()`.
unfoldable pub decode_native : DataType → List ℕ → Result DataValue
unfolding before_nul from_utf8_lossy
decode_native DataType.bool xs = do ok (DataValue.bool (not ((← index xs 0) == 0)))
decode_native DataType.uint8 xs = do ok (DataValue.u8 (← index xs 0))
decode_native DataType.int8 xs = do ok (DataValue.i8 (signed 7 (← index xs 0)))
decode_native DataType.uint16 xs = do ok (DataValue.u16 (← be_u16 xs 0 1))
decode_native DataType.int16 xs = do ok (DataValue.i16 (signed 15 (← be_u16 xs 0 1)))
decode_native DataType.enum xs = do ok (DataValue.u32 (← be_u32 xs 0 1 2 3))
decode_native DataType.uint32 xs = do ok (DataValue.u32 (← be_u32 xs 0 1 2 3))
decode_native DataType.int32 xs = do ok (DataValue.i32 (signed 31 (← be_u32 xs 0 1 2 3)))
decode_native DataType.float xs = do ok (DataValue.f32 (← be_u32 xs 0 1 2 3))
decode_native DataType.string xs = ok (DataValue.str (from_utf8_lossy (before_nul xs)))
decode_native _ xs = panic

unfoldable pub decode_value : DataType → List ℕ → Result DataValue
unfolding need decode_native
decode_value data_type xs = elim (need data_type) [
  | none ↦ ok (DataValue.raw xs)
  | some n ↦
      if ltb (length xs) n
      then err (RctError.payload_too_short (name data_type) (length xs) n)
      else decode_native data_type xs
]
