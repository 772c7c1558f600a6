-- ===== src/Types/Command/Laws.antt =====
-- Command bytes and commands.
use rctpower_protocol.Base.{ℕ, ◌+◌, ◌<◌, ◌≡◌, refl, ◌⊎◌, inl, inr, ◌↔◌, arith}
use rctpower_protocol.Base.{Bool, true, false, ◌||◌, Option, none, some, ◌==◌}
use rctpower_protocol.Base.Bits.{all_below, all_below_sound}
use rctpower_protocol.Types.Command.{Command, byte, plant_bit, from_byte, is_plant_byte}

from_byte-byte :
    (c : Command) → (from_byte (byte c) ≡ some c) × (from_byte (byte c + plant_bit) ≡ some c)
unfolding from_byte byte
from_byte-byte Command.read = (refl, refl)
from_byte-byte _ = (refl, refl)

names_byte : Option Command → ℕ → Bool
names_byte none b = true
names_byte (some c) b = b == byte c || b == byte c + plant_bit

table : all_below 256 (λ b. names_byte (from_byte b) b) ≡ true
unfolding names_byte all_below from_byte byte
table = refl

byte_of_command :
    (b : ℕ) (c : Command) → b < 256 → from_byte b ≡ some c → (b ≡ byte c) ⊎ (b ≡ byte c + plant_bit)
unfolding names_byte
byte_of_command b c h e =
    ground (arith, all_below_sound 256 (λ b. names_byte (from_byte b) b) b table h)

-- A byte is read as the command `c` exactly when it is the command's byte, or that plus the plant
-- bit.
pub from_byte_iff :
    (b : ℕ) (c : Command)
    → b < 256
    → (from_byte b ≡ some c) ↔ ((b ≡ byte c) ⊎ (b ≡ byte c + plant_bit))
from_byte_iff b c h = (byte_of_command b c h, back)
  where
    back : (b ≡ byte c) ⊎ (b ≡ byte c + plant_bit) → from_byte b ≡ some c
    back (inl e) = rw e (from_byte-byte c).0
    back (inr e) = rw e (from_byte-byte c).1

-- The byte of a command never has the plant bit.
pub is_plant_byte-byte : (c : Command) → is_plant_byte (byte c) ≡ false
unfolding is_plant_byte byte
is_plant_byte-byte Command.read = refl
is_plant_byte-byte _ = refl
