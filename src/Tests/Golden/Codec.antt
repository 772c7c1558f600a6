-- ===== src/Tests/Golden/Codec.antt =====
-- The tests in src/codec.rs, as Booleans. 0.5 is the pattern 0x3f000000.
use rctpower_protocol.Base.{ℕ, zero, suc, Bool, true, false, ◌&&◌, ◌≡◌, refl, List, [], ◌∷◌, ◌++◌}
use rctpower_protocol.Base.{◌==◌, length}
use rctpower_protocol.Base.Bytes.{codes}
use rctpower_protocol.Base.Text.{text_eq}
use rctpower_protocol.Error.{ok}
use rctpower_protocol.Types.DataType.{DataType}
use rctpower_protocol.Types.DataValue.{DataValue, Floats, value_eq}
use rctpower_protocol.Codec.Crc.{crc16}
use rctpower_protocol.Codec.Encode.{encode_for}
use rctpower_protocol.Codec.Decode.{decode_value}

unfoldable crc16_even_input : Bool
unfolding crc16
crc16_even_input = crc16 (0x02 ∷ 0x04 ∷ 0x00 ∷ 0x00 ∷ 0xc0 ∷ 0xde ∷ []) == 0x30b1

unfoldable crc16_odd_input_pads_zero : Bool
unfolding crc16
crc16_odd_input_pads_zero = crc16 (0x02 ∷ []) == crc16 (0x02 ∷ 0x00 ∷ [])

-- `assert_eq!` of a decoded value.
unfoldable decodes : DataType → List ℕ → DataValue → Bool
unfolding decode_value value_eq
decodes t bytes expected = elim (decode_value t bytes) [ ok v ↦ value_eq v expected | _ ↦ false ]

unfoldable decode_bool_python_vectors : Bool
unfolding decodes
decode_bool_python_vectors =
    decodes DataType.bool (0x00 ∷ []) (DataValue.bool false)
    && decodes DataType.bool (0x01 ∷ []) (DataValue.bool true)
    && decodes DataType.bool (0x02 ∷ []) (DataValue.bool true)
    && decodes DataType.bool (0xff ∷ []) (DataValue.bool true)

unfoldable decode_uint8_python_vectors : Bool
unfolding decodes
decode_uint8_python_vectors =
    decodes DataType.uint8 (0x00 ∷ []) (DataValue.u8 0)
    && decodes DataType.uint8 (0x01 ∷ []) (DataValue.u8 1)
    && decodes DataType.uint8 (0x02 ∷ []) (DataValue.u8 2)
    && decodes DataType.uint8 (0xff ∷ []) (DataValue.u8 255)

abbrev zeros : ℕ → List ℕ
zeros zero = []
zeros (suc n) = 0 ∷ zeros n

unfoldable decode_string_null_terminated : Bool
unfolding decodes
decode_string_null_terminated =
    decodes DataType.string (codes "PS 6.0 BA3L" ++ zeros 40) (DataValue.str (codes "PS 6.0 BA3L"))

unfoldable decode_string_no_null : Bool
unfolding decodes
decode_string_no_null =
    decodes DataType.string (codes "PS 6.0 BA3L") (DataValue.str (codes "PS 6.0 BA3L"))

unfoldable encode_decode_roundtrip_float : Floats → Bool
unfolding encode_for decodes
encode_decode_roundtrip_float floats =
    elim (encode_for floats DataType.float (DataValue.f32 0x3f000000)) [
      | ok enc ↦ length enc == 4 && decodes DataType.float enc (DataValue.f32 0x3f000000)
      | _ ↦ false
    ]

codec_passes :
    (crc16_even_input ≡ true)
    × (crc16_odd_input_pads_zero ≡ true)
    × (decode_bool_python_vectors ≡ true)
    × (decode_uint8_python_vectors ≡ true)
    × (decode_string_null_terminated ≡ true)
    × (decode_string_no_null ≡ true)
    × ((floats : Floats) → encode_decode_roundtrip_float floats ≡ true)
unfolding crc16_even_input crc16_odd_input_pads_zero decode_bool_python_vectors
    decode_uint8_python_vectors decode_string_null_terminated decode_string_no_null
    encode_decode_roundtrip_float text_eq
codec_passes = (refl, refl, refl, refl, refl, refl, λ floats. refl)
