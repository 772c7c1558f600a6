-- ===== src/Tests/Frame.antt =====
-- The theorems on src/frame.rs at concrete inputs.
use rctpower_protocol.Base.{refl, ℕ, true, false, ◌+◌, ◌≡◌, arith, List, [], ◌∷◌, ◌++◌, length}
use rctpower_protocol.Base.Bytes.{u16_to_be}
use rctpower_protocol.Error.{RctError, ok, err}
use rctpower_protocol.Types.Command.{Command, standard, is_long}
use rctpower_protocol.Codec.Crc.{crc16}
use rctpower_protocol.Frame.Send.{make_frame, frame_body, escape, start_token}
use rctpower_protocol.Frame.Receive.{ReceiveFrame, new, consume}
use rctpower_protocol.Frame.RoundTrip.{Received, consume-make_frame}
use rctpower_protocol.Frame.Corrupted.{consume-corrupted_byte}
use rctpower_protocol.Frame.Receive.{consume_loop, step, step_inside, accept, command_byte}
use rctpower_protocol.Frame.Receive.{check_header, parse_header, check_end, finish, finish_crc}
use rctpower_protocol.Frame.Receive.{finish_payload}
use rctpower_protocol.Types.Command.{from_byte, is_plant_byte, byte}
use rctpower_protocol.Frame.Wire.{IsUnescaped, new-IsUnescaped, consume-IsUnescaped}
use rctpower_protocol.Frame.Wire.Standing.{consume-raw}
use rctpower_protocol.Frame.Panics.{Left, consume-Left}
use rctpower_protocol.Frame.Address.{consume-address}

-- A payload that is escaped on the wire.
abbrev tokens : List ℕ
tokens = 0x2b ∷ 0x2d ∷ []

consume-make_frame_example :
    (frame : List ℕ) × (make_frame Command.response 0xc02b tokens 0 standard ≡ ok frame)
    × ((r : ReceiveFrame) × (consume (new false) ((1 ∷ []) ++ (frame ++ (7 ∷ [])))
          ≡ (r, ok (1 + length frame)))
        × Received r Command.response 0xc02b tokens frame (1 + length frame))
unfolding is_long
consume-make_frame_example =
    consume-make_frame false (1 ∷ []) (7 ∷ []) Command.response tokens 0xc02b 0
      (λ e. ground arith, tt) tt (omega arith) (omega arith)

consume-corrupted_byte_example :
    let crc = crc16 (frame_body Command.response 0xc02b ((1 ∷ []) ++ (2 ∷ (3 ∷ []))) 0 standard) in
    let arrived = frame_body Command.response 0xc02b ((1 ∷ []) ++ (0x2b ∷ (3 ∷ []))) 0 standard in
    let frame = start_token ∷ escape (arrived ++ u16_to_be crc) in
    (consume (new false) ((9 ∷ []) ++ (frame ++ (7 ∷ [])))).1
    ≡ err (RctError.frame_crc_mismatch crc (crc16 arrived) (1 + length frame))
unfolding is_long
consume-corrupted_byte_example =
    consume-corrupted_byte (9 ∷ []) (7 ∷ []) (1 ∷ []) (3 ∷ []) 2 0x2b Command.response 0xc02b 0
      (omega arith, tt) tt (omega arith) (omega arith) (omega arith, tt) (omega arith) (omega arith)
      (omega arith, tt) (omega arith)

-- A READ frame of the program's own tests.
abbrev golden : List ℕ
golden = 0x2b ∷ 0x01 ∷ 0x04 ∷ 0x00 ∷ 0x00 ∷ 0xc0 ∷ 0xde ∷ 0xfe ∷ 0x51 ∷ []

abbrev golden_parser : ReceiveFrame
golden_parser = (consume (new false) golden).0

golden_received : consume (new false) golden ≡ (golden_parser, ok 9)
unfolding consume consume_loop step step_inside accept command_byte check_header parse_header
    check_end finish finish_crc finish_payload crc16 from_byte is_plant_byte is_long byte
golden_received = refl

golden_complete : golden_parser.complete ≡ true
unfolding consume consume_loop step step_inside accept command_byte check_header parse_header
    check_end finish finish_crc finish_payload crc16 from_byte is_plant_byte is_long byte
golden_complete = refl

-- The start of a plant frame, with the address 7.
consume-address_example :
    (consume (new false) (0x2b ∷ 0x41 ∷ 8 ∷ 0 ∷ 0 ∷ 0 ∷ 7 ∷ 0 ∷ 0 ∷ 0xc0 ∷ 0xde ∷ [])).0.address ≡ 0
consume-address_example =
    consume-address (new false) (0x2b ∷ 0x41 ∷ 8 ∷ 0 ∷ 0 ∷ 0 ∷ 7 ∷ 0 ∷ 0 ∷ 0xc0 ∷ 0xde ∷ [])

consume-Left_example :
    let (r', answer) = consume (new false) (0x2b ∷ 0x05 ∷ 3 ∷ 1 ∷ 2 ∷ 3 ∷ 4 ∷ 5 ∷ []) in
    Left r' answer
consume-Left_example = consume-Left (new false) (0x2b ∷ 0x05 ∷ 3 ∷ 1 ∷ 2 ∷ 3 ∷ 4 ∷ 5 ∷ []) refl

-- A parser that has seen an escape token and nothing behind it, and gets more bytes.
consume-IsUnescaped_example :
    IsUnescaped (consume (consume (new false) (0x2b ∷ 0x02 ∷ 0x2d ∷ [])).0 (0x2b ∷ 0x2d ∷ [])).0
consume-IsUnescaped_example =
    consume-IsUnescaped (consume (new false) (0x2b ∷ 0x02 ∷ 0x2d ∷ [])).0 (0x2b ∷ 0x2d ∷ [])
      (consume-IsUnescaped (new false) (0x2b ∷ 0x02 ∷ 0x2d ∷ []) (new-IsUnescaped false))

-- The same frame behind a byte that is no start token.
abbrev late_parser : ReceiveFrame
late_parser = (consume (new false) (9 ∷ golden)).0

late_received : consume (new false) (9 ∷ golden) ≡ (late_parser, ok 10)
unfolding consume consume_loop step step_inside accept command_byte check_header parse_header
    check_end finish finish_crc finish_payload crc16 from_byte is_plant_byte is_long byte
late_received = refl

consume-raw_example :
    consume (new false) late_parser.raw
    ≡ (record late_parser { consumed_bytes = length late_parser.raw }, ok (length late_parser.raw))
consume-raw_example = consume-raw (9 ∷ golden) late_parser 10 late_received
