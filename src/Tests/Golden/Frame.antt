-- ===== src/Tests/Golden/Frame.antt =====
-- The tests in src/frame.rs, as Booleans.
use rctpower_protocol.Base.{ℕ, zero, suc, ◌+◌, ◌*◌, bit_xor, Bool, true, false}
use rctpower_protocol.Base.{◌&&◌, ◌||◌, ◌≡◌, refl, List, [], ◌∷◌, ◌++◌, ◌==◌, drop}
use rctpower_protocol.Base.Bytes.{codes}
use rctpower_protocol.Base.Text.{Text, text_eq, hex}
use rctpower_protocol.Base.Strings.{to_digit}
use rctpower_protocol.Base.{Option, none, some}
use rctpower_protocol.Error.{RctError, ok, err}
use rctpower_protocol.Types.Command.{Command, standard, byte, from_byte, is_plant_byte, is_long}
use rctpower_protocol.Codec.Crc.{crc16}
use rctpower_protocol.Frame.Send.{make_frame, escape_token}
use rctpower_protocol.Frame.Receive.{ReceiveFrame, new, consume, consume_loop, step, step_inside}
use rctpower_protocol.Frame.Receive.{accept, command_byte, check_header, parse_header, check_end}
use rctpower_protocol.Frame.Receive.{finish, finish_crc, finish_payload}

-- Pairs of hexadecimal digits; text that is none ends the bytes.
unfoldable bytes_from_hex : Text → List ℕ
unfolding to_digit
bytes_from_hex (a ∷ b ∷ s) =
    let rest = bytes_from_hex s in
    elim (to_digit 16 a) [
      | none ↦ []
      | some hi ↦ elim (to_digit 16 b) [ none ↦ [] | some lo ↦ (16 * hi + lo) ∷ rest ]
    ]
bytes_from_hex s = []

-- `make_frame` without a payload for one id, in hexadecimal digits.
unfoldable frames_as : Command → ℕ → Text → Bool
unfolding make_frame hex text_eq
frames_as command id data_out = elim (make_frame command id [] 0 standard) [
  | ok f ↦ text_eq (hex f) data_out
  | _ ↦ false
]

unfoldable golden_write_standard_nopayload : Bool
unfolding frames_as
golden_write_standard_nopayload =
    frames_as Command.write 0x0 (codes "2b0204000000000c56")
    && frames_as Command.write 0xc0de (codes "2b02040000c0de30b1")
    && frames_as Command.write 0xffffffff (codes "2b0204ffffffff9599")

unfoldable golden_read_standard_nopayload : Bool
unfolding frames_as
golden_read_standard_nopayload =
    frames_as Command.read 0x0 (codes "2b010400000000c2b6")
    && frames_as Command.read 0xc0de (codes "2b01040000c0defe51")
    && frames_as Command.read 0xffffffff (codes "2b0104ffffffff5b79")

unfoldable golden_longresponse_standard_nopayload : Bool
unfolding frames_as
golden_longresponse_standard_nopayload =
    frames_as Command.long_response 0x0 (codes "2b06000400000000b754")
    && frames_as Command.long_response 0xc0de (codes "2b0600040000c0dea78b")
    && frames_as Command.long_response 0xffffffff (codes "2b060004ffffffff6ac4")

unfoldable golden_response_standard_nopayload : Bool
unfolding frames_as
golden_response_standard_nopayload =
    frames_as Command.response 0x0 (codes "2b050400000000c417")
    && frames_as Command.response 0xc0de (codes "2b05040000c0def8f0")
    && frames_as Command.response 0xffffffff (codes "2b0504ffffffff5dd8")

golden_passes :
    (golden_write_standard_nopayload ≡ true)
    × (golden_read_standard_nopayload ≡ true)
    × (golden_longresponse_standard_nopayload ≡ true)
    × (golden_response_standard_nopayload ≡ true)
unfolding golden_write_standard_nopayload golden_read_standard_nopayload
    golden_longresponse_standard_nopayload golden_response_standard_nopayload
golden_passes = (refl, refl, refl, refl)

-- The parser after one call of `consume` that does not fail.
unfoldable received : List ℕ → Option ReceiveFrame
unfolding consume
received stream =
    let (rx, answer) = consume (new false) stream in elim answer [ ok n ↦ some rx | _ ↦ none ]

-- The payload is the four bytes of 0.75.
unfoldable read_frame_roundtrip : Bool
unfolding make_frame received text_eq
read_frame_roundtrip =
    let payload = 0x3f ∷ 0x40 ∷ 0 ∷ 0 ∷ [] in
    elim (make_frame Command.response 0x959930bf payload 0 standard) [
      | ok frame ↦ elim (received frame) [
        | some rx ↦ rx.complete && rx.crc_ok && rx.id == 0x959930bf && text_eq rx.payload payload
        | none ↦ false
      ]
      | _ ↦ false
    ]

unfoldable pub has : ℕ → List ℕ → Bool
has c [] = false
has c (d ∷ ds) = d == c || has c ds

unfoldable escape_tokens_are_unescaped_on_parse : Bool
unfolding make_frame received text_eq has
escape_tokens_are_unescaped_on_parse =
    let payload = 0x2b ∷ 0x2d ∷ 0x01 ∷ [] in
    elim (make_frame Command.write 0x11223344 payload 0 standard) [
      | ok frame ↦ has escape_token (drop 1 frame) && elim (received frame) [
        | some rx ↦ rx.complete && text_eq rx.payload payload
        | none ↦ false
      ]
      | _ ↦ false
    ]

-- `f[at] ^= by`.
unfoldable flipped : ℕ → ℕ → List ℕ → List ℕ
flipped at mask [] = []
flipped zero mask (b ∷ bs) = bit_xor b mask ∷ bs
flipped (suc at) mask (b ∷ bs) = b ∷ flipped at mask bs

unfoldable crc_mismatch_error_carries_consumed : Bool
unfolding bytes_from_hex flipped consume
crc_mismatch_error_carries_consumed =
    let frame = flipped 5 0xff (bytes_from_hex (codes "2b01040000c0defe51")) in
    elim (consume (new false) frame).1 [
      | err (RctError.frame_crc_mismatch received calculated consumed) ↦ true
      | _ ↦ false
    ]

unfoldable garbage_before_start_is_skipped : Bool
unfolding bytes_from_hex received
garbage_before_start_is_skipped =
    let stream = codes "junk" ++ (0xff ∷ 0x00 ∷ bytes_from_hex (codes "2b01040000c0defe51")) in
    elim (received stream) [ some rx ↦ rx.complete && rx.id == 0xc0de | none ↦ false ]

parser_passes :
    (read_frame_roundtrip ≡ true)
    × (escape_tokens_are_unescaped_on_parse ≡ true)
    × (crc_mismatch_error_carries_consumed ≡ true)
    × (garbage_before_start_is_skipped ≡ true)
unfolding read_frame_roundtrip escape_tokens_are_unescaped_on_parse
    crc_mismatch_error_carries_consumed garbage_before_start_is_skipped consume_loop step
    step_inside accept command_byte check_header parse_header check_end finish finish_crc
    finish_payload crc16 from_byte is_plant_byte is_long byte
parser_passes = (refl, refl, refl, refl)
