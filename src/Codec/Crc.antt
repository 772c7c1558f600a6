-- ===== src/Codec/Crc.antt =====
-- `crc16` of src/codec.rs. `crcsum` is a u32, and a `u32 << 1` drops the top bit.
pub mod Laws
pub mod Detect
use rctpower_protocol.Base.{ℕ, zero, suc, ◌*◌, ◌%◌, ◌^◌, bit_and, bit_xor}
use rctpower_protocol.Base.{List, [], ◌∷◌, ◌++◌, ◌==◌, if◌then◌else◌, length}

abbrev pub polynom : ℕ
polynom = 0x1021

-- One round of the inner loop.
unfoldable pub crc_round : ℕ → ℕ
crc_round crcsum =
    let shifted = crcsum * 2 % 2 ^ 32 in
    if bit_and shifted 0x7fff0000 == 0 then shifted else bit_xor (bit_and shifted 0xffff) polynom

unfoldable pub crc_rounds : ℕ → ℕ → ℕ
unfolding crc_round
crc_rounds zero crcsum = crcsum
crc_rounds (suc n) crcsum = crc_rounds n (crc_round crcsum)

-- The body of the loop over the bytes.
unfoldable pub crc_byte : ℕ → ℕ → ℕ
unfolding crc_rounds
crc_byte crcsum b = crc_rounds 8 (bit_xor crcsum (b * 2 ^ 8 % 2 ^ 32))

unfoldable pub crc_bytes : ℕ → List ℕ → ℕ
unfolding crc_byte
crc_bytes crcsum [] = crcsum
crc_bytes crcsum (b ∷ bs) = crc_bytes (crc_byte crcsum b) bs

-- An input of odd length is padded by a zero byte.
unfoldable pub padded : List ℕ → List ℕ
padded input = input ++ (if bit_and (length input) 0x01 == 1 then 0 ∷ [] else [])

unfoldable pub crc16 : List ℕ → ℕ
unfolding crc_bytes padded
crc16 input = crc_bytes 0xffff (padded input) % 2 ^ 16
