-- ===== src/Types/Command.antt =====
-- `Command` and `FrameType` of src/types.rs.
pub mod Laws
use rctpower_protocol.Base.{ℕ, Bool, true, false, not, Option, none, some}
use rctpower_protocol.Base.{bit_and, ◌==◌, if◌then◌else◌}

pub data Command : Type 0 where
  read write long_write response long_response read_periodically extension : Command

-- `self as u8`.
unfoldable pub byte : Command → ℕ
byte read = 0x01
byte write = 0x02
byte long_write = 0x03
byte response = 0x05
byte long_response = 0x06
byte read_periodically = 0x08
byte extension = 0x3c

-- `!Self::PLANT_BIT` is 0xbf.
abbrev pub plant_bit : ℕ
plant_bit = 0x40

unfoldable pub from_byte : ℕ → Option Command
from_byte b =
    let base = bit_and b 0xbf in
    if base == 0x01
    then some read
    else if base == 0x02
    then some write
    else if base == 0x03
    then some long_write
    else if base == 0x05
    then some response
    else if base == 0x06
    then some long_response
    else if base == 0x08
    then some read_periodically
    else if base == 0x3c
    then some extension
    else none

unfoldable pub is_plant_byte : ℕ → Bool
is_plant_byte b = not (bit_and b plant_bit == 0)

unfoldable pub is_long : Command → Bool
is_long long_write = true
is_long long_response = true
is_long _ = false

unfoldable pub is_write : Command → Bool
is_write write = true
is_write long_write = true
is_write _ = false

unfoldable pub is_response : Command → Bool
is_response response = true
is_response long_response = true
is_response _ = false

pub data FrameType : Type 0 where
  standard plant : FrameType

-- `self as u8` and `self as u16`.
unfoldable pub frame_type_number : FrameType → ℕ
frame_type_number standard = 4
frame_type_number plant = 8
