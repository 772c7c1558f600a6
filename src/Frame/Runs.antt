-- ===== src/Frame/Runs.antt =====
-- Frames of the program's own tests.
use rctpower_protocol.Base.{ℕ, ◌≡◌, refl, false, List, [], ◌∷◌}
use rctpower_protocol.Error.{Result, ok, panic}
use rctpower_protocol.Types.Command.{Command, standard, from_byte, is_plant_byte, is_long, byte}
use rctpower_protocol.Codec.Crc.{crc16}
use rctpower_protocol.Frame.Send.{make_frame}
use rctpower_protocol.Frame.Receive.{ReceiveFrame, new, consume, consume_loop, step, step_inside}
use rctpower_protocol.Frame.Receive.{accept}
use rctpower_protocol.Frame.Receive.{command_byte, check_header, parse_header, check_end, finish}
use rctpower_protocol.Frame.Receive.{finish_crc, finish_payload}

received : List ℕ → ReceiveFrame × Result ℕ
unfolding consume consume_loop step step_inside accept command_byte check_header parse_header
    check_end finish finish_crc finish_payload crc16 from_byte is_plant_byte is_long byte
received bytes = consume (new false) bytes

-- golden_read_standard_nopayload.
read_c0de :
    make_frame Command.read 0xc0de [] 0 standard
    ≡ ok (0x2b ∷ 0x01 ∷ 0x04 ∷ 0x00 ∷ 0x00 ∷ 0xc0 ∷ 0xde ∷ 0xfe ∷ 0x51 ∷ [])
unfolding make_frame
read_c0de = refl

received_c0de :
    (received (0x2b ∷ 0x01 ∷ 0x04 ∷ 0x00 ∷ 0x00 ∷ 0xc0 ∷ 0xde ∷ 0xfe ∷ 0x51 ∷ [])).0.id ≡ 0xc0de
unfolding received
received_c0de = refl

-- A length field of 3 makes the slice of the payload panic.
length_three : (received (0x2b ∷ 0x05 ∷ 3 ∷ 1 ∷ 2 ∷ 3 ∷ 4 ∷ 5 ∷ [])).1 ≡ panic
unfolding received
length_three = refl
