-- ===== src/Codec/Encode.antt =====
-- `encode_value`, `encode_for` and `to_i64` of src/codec.rs.
use rctpower_protocol.Base.{ℕ, Bool, true, false, not, List, [], ◌∷◌, ◌==◌}
use rctpower_protocol.Base.Int.{ℤ, pos, negsuc, wrap, signed}
use rctpower_protocol.Base.Bytes.{u16_to_be, u32_to_be}
use rctpower_protocol.Error.{RctError, Result, ok, err, ◌>>=◌}
use rctpower_protocol.Types.DataType.{DataType, name}
use rctpower_protocol.Types.DataValue.{DataValue, Floats, to_string}

unfoldable pub encode_value : DataValue → List ℕ
encode_value (DataValue.bool true) = 1 ∷ []
encode_value (DataValue.bool false) = 0 ∷ []
encode_value (DataValue.u8 v) = v ∷ []
encode_value (DataValue.i8 v) = wrap 8 v ∷ []
encode_value (DataValue.u16 v) = u16_to_be v
encode_value (DataValue.i16 v) = u16_to_be (wrap 16 v)
encode_value (DataValue.u32 v) = u32_to_be v
encode_value (DataValue.i32 v) = u32_to_be (wrap 32 v)
encode_value (DataValue.f32 v) = u32_to_be v
encode_value (DataValue.str s) = s
encode_value (DataValue.raw b) = b

-- `RctError::InvalidValue` with an empty name.
invalid {ℓ} : {A : Type ℓ} → Floats → DataValue → Result A
invalid floats v = err (RctError.invalid_value [] (to_string floats v))

-- `i != 0`.
is_nonzero : ℤ → Bool
is_nonzero (pos n) = not (n == 0)
is_nonzero (negsuc n) = true

unfoldable pub to_i64 : Floats → DataValue → Result ℤ
unfolding invalid
to_i64 floats (DataValue.bool true) = ok (pos 1)
to_i64 floats (DataValue.bool false) = ok (pos 0)
to_i64 floats (DataValue.i8 i) = ok i
to_i64 floats (DataValue.u8 i) = ok (pos i)
to_i64 floats (DataValue.i16 i) = ok i
to_i64 floats (DataValue.u16 i) = ok (pos i)
to_i64 floats (DataValue.i32 i) = ok i
to_i64 floats (DataValue.u32 i) = ok (pos i)
to_i64 floats (DataValue.f32 f) = ok (floats.to_i64 f)
to_i64 floats (DataValue.str s) = invalid floats (DataValue.str s)
to_i64 floats (DataValue.raw b) = invalid floats (DataValue.raw b)

to_bool : Floats → DataValue → Result Bool
unfolding invalid is_nonzero
to_bool floats (DataValue.bool b) = ok b
to_bool floats (DataValue.i8 i) = ok (is_nonzero i)
to_bool floats (DataValue.u8 i) = ok (not (i == 0))
to_bool floats other = invalid floats other

to_f32 : Floats → DataValue → Result ℕ
unfolding to_i64
to_f32 floats (DataValue.f32 f) = ok f
to_f32 floats other = to_i64 floats other >>= λ i. ok (floats.of_i64 i)

to_str : Floats → DataValue → Result (List ℕ)
unfolding invalid
to_str floats (DataValue.str s) = ok s
to_str floats other = invalid floats other

-- The wire representation of `data_type`, before it is written out.
unfoldable pub normalize : Floats → DataType → DataValue → Result DataValue
unfolding to_i64 to_bool to_f32 to_str name
normalize floats DataType.bool v = do ok (DataValue.bool (← to_bool floats v))
normalize floats DataType.uint8 v = do ok (DataValue.u8 (wrap 8 (← to_i64 floats v)))
normalize floats DataType.enum v = do ok (DataValue.u8 (wrap 8 (← to_i64 floats v)))
normalize floats DataType.int8 v = do ok (DataValue.i8 (signed 7 (wrap 8 (← to_i64 floats v))))
normalize floats DataType.uint16 v = do ok (DataValue.u16 (wrap 16 (← to_i64 floats v)))
normalize floats DataType.int16 v = do ok (DataValue.i16 (signed 15 (wrap 16 (← to_i64 floats v))))
normalize floats DataType.uint32 v = do ok (DataValue.u32 (wrap 32 (← to_i64 floats v)))
normalize floats DataType.int32 v = do ok (DataValue.i32 (signed 31 (wrap 32 (← to_i64 floats v))))
normalize floats DataType.float v = do ok (DataValue.f32 (← to_f32 floats v))
normalize floats DataType.string v = do ok (DataValue.str (← to_str floats v))
normalize floats other v = err (RctError.unknown_data_type (name other))

unfoldable pub encode_for : Floats → DataType → DataValue → Result (List ℕ)
unfolding normalize encode_value
encode_for floats data_type value = do ok (encode_value (← normalize floats data_type value))
