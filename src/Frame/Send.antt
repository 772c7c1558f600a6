-- ===== src/Frame/Send.antt =====
-- `make_frame` of src/frame.rs. A list of bytes is shorter than 2 ^ 64; the casts of its length
-- and the additions are those of a build without overflow checks, which wrap.
use rctpower_protocol.Base.{ℕ, ◌+◌, ◌%◌, ◌^◌, ◌||◌, List, [], ◌∷◌, ◌++◌, ◌==◌, if◌then◌else◌}
use rctpower_protocol.Base.{length}
use rctpower_protocol.Base.Bytes.{u16_to_be, u32_to_be}
use rctpower_protocol.Error.{Result, ok}
use rctpower_protocol.Types.Command.{Command, FrameType, standard, plant, byte, is_long}
use rctpower_protocol.Types.Command.{frame_type_number}
use rctpower_protocol.Codec.Crc.{crc16}

abbrev pub start_token : ℕ
start_token = b'+'

abbrev pub escape_token : ℕ
escape_token = b'-'

unfoldable pub length_field : Command → FrameType → List ℕ → List ℕ
unfolding is_long frame_type_number
length_field command frame_type payload =
    if is_long command
    then u16_to_be ((frame_type_number frame_type + length payload % 2 ^ 16) % 2 ^ 16)
    else (frame_type_number frame_type + length payload % 2 ^ 8) % 2 ^ 8 ∷ []

unfoldable pub address_field : FrameType → ℕ → List ℕ
address_field plant address = u32_to_be address
address_field standard address = []

-- READ frames carry no payload.
unfoldable pub payload_field : Command → List ℕ → List ℕ
payload_field Command.read payload = []
payload_field _ payload = payload

-- The frame without its start token, its checksum and its escapes.
unfoldable pub frame_body : Command → ℕ → List ℕ → ℕ → FrameType → List ℕ
unfolding byte length_field address_field payload_field
frame_body command id payload address frame_type =
    byte command ∷ length_field command frame_type payload
    ++ (address_field frame_type address ++ (u32_to_be id ++ payload_field command payload))

unfoldable pub escape_byte : ℕ → List ℕ
escape_byte b = if (b == start_token) || (b == escape_token) then escape_token ∷ b ∷ [] else b ∷ []

-- The loop that writes `buf` to `out`.
unfoldable pub escape : List ℕ → List ℕ
unfolding escape_byte
escape [] = []
escape (b ∷ bs) = escape_byte b ++ escape bs

unfoldable pub make_frame : Command → ℕ → List ℕ → ℕ → FrameType → Result (List ℕ)
unfolding frame_body crc16 escape
make_frame command id payload address frame_type =
    let buf = frame_body command id payload address frame_type in
    ok (start_token ∷ escape (buf ++ u16_to_be (crc16 buf)))
