-- ===== src/Tests/Codec.antt =====
-- The theorems on src/codec.rs at concrete inputs.
use rctpower_protocol.Base.{◌^◌, ◌<◌, ◌≡◌, refl, arith, [], ◌∷◌, ◌++◌}
use rctpower_protocol.Base.Int.{pos, negsuc}
use rctpower_protocol.Base.Bytes.{codes}
use rctpower_protocol.Error.{RctError, ok, err, ◌>>=◌}
use rctpower_protocol.Types.DataType.{DataType, name}
use rctpower_protocol.Types.DataValue.{DataValue, Floats}
use rctpower_protocol.Codec.Crc.{crc16}
use rctpower_protocol.Codec.Crc.Laws.{crc16-ccitt, ccitt, pad}
use rctpower_protocol.Codec.Encode.{encode_for, to_i64}
use rctpower_protocol.Codec.Decode.{decode_value}
use rctpower_protocol.Codec.RoundTrip.{decode_value-encode_for_int}
use rctpower_protocol.Codec.RoundTrip.{value_of}
use rctpower_protocol.Codec.RoundTrip.{enum_one_way}

-- Floats of which only the bit pattern of 0 is known.
abbrev no_floats : Floats
no_floats = record { to_i64 = λ f. pos 0; of_i64 = λ i. 0; shown = λ f. codes "0" }

crc16-ccitt_example :
    (crc16 (1 ∷ 4 ∷ 0 ∷ []) ≡ ccitt 0xffff ((1 ∷ 4 ∷ 0 ∷ []) ++ pad (1 ∷ 4 ∷ 0 ∷ [])))
    × (crc16 (1 ∷ 4 ∷ 0 ∷ []) < 2 ^ 16)
crc16-ccitt_example = crc16-ccitt (1 ∷ 4 ∷ 0 ∷ []) (omega arith, (omega arith, (omega arith, tt)))

decode_value-encode_for_int_example :
    ((encode_for no_floats DataType.int16 (DataValue.i32 (negsuc 2))
        >>= decode_value DataType.int16)
      ≡ ok (value_of DataType.int16 (negsuc 2)))
    × (to_i64 no_floats (value_of DataType.int16 (negsuc 2)) ≡ ok (negsuc 2))
unfolding to_i64
decode_value-encode_for_int_example =
    decode_value-encode_for_int no_floats DataType.int16 (DataValue.i32 (negsuc 2)) (negsuc 2) refl
      (omega arith)

enum_one_way_example :
    (encode_for no_floats DataType.enum (DataValue.u8 2) >>= decode_value DataType.enum)
    ≡ err (RctError.payload_too_short (name DataType.enum) 1 4)
unfolding to_i64
enum_one_way_example = enum_one_way no_floats (DataValue.u8 2) (pos 2) refl
