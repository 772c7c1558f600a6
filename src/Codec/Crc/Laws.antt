-- ===== src/Codec/Crc/Laws.antt =====
-- `crc16` against the shift register of 16 bits that it stands for.
use rctpower_protocol.Base.{ℕ, zero, suc, ◌+◌, ◌*◌, ◌/◌, ◌%◌, ◌^◌, ◌<◌, bit_xor}
use rctpower_protocol.Base.{◌≡◌, refl, ap, ◌∙◌, arith, List, [], ◌∷◌, ◌++◌}
use rctpower_protocol.Base.{ltb, ◌==◌, if◌then◌else◌, length, All-append}
use rctpower_protocol.Base.Bytes.{IsByte, IsBytes}
use rctpower_protocol.Base.Bits.{bit_xor-cancel, bit_xor-lt, bit_xor_comm, bit_xor_assoc}
use rctpower_protocol.Base.Bits.{bit_xor_fields, bit_xor-zero, bit_xor_digit, bit_and_ones}
use rctpower_protocol.Base.Bits.{bit_and_high}
use rctpower_protocol.Codec.Crc.{polynom, crc_round, crc_rounds, crc_byte, crc_bytes, padded}
use rctpower_protocol.Codec.Crc.{crc16}

-- The register: shift left by one in 16 bits, and add the polynomial if a one was pushed out.
unfoldable pub register_round : ℕ → ℕ
register_round s = if ltb s 0x8000 then s * 2 else bit_xor (s * 2 % 2 ^ 16) polynom

pub crc_round-register : (s : ℕ) → s < 2 ^ 16 → crc_round s ≡ register_round s
unfolding crc_round register_round
crc_round-register s h = ground (
  arith,
  bit_and_high 16 (s / 2 ^ 15) (s * 2 % 2 ^ 16) 0x7fff,
  bit_and_ones 16 (s / 2 ^ 15) (s * 2 % 2 ^ 16) 0xffff,
  bit_and_ones 15 0 (s / 2 ^ 15) 0x7fff,
)

pub register_round-lt : (s : ℕ) → s < 2 ^ 16 → register_round s < 2 ^ 16
unfolding register_round
register_round-lt s h = ground (arith, bit_xor-lt 16 (s * 2 % 2 ^ 16) polynom)

-- A round forgets nothing: the lowest bit of its result tells whether the polynomial was added.
pub register_round-injective :
    (s t : ℕ) → s < 2 ^ 16 → t < 2 ^ 16 → register_round s ≡ register_round t → s ≡ t
unfolding register_round
register_round-injective s t hs ht e = ground (
  arith,
  bit_xor_digit (s * 2 % 2 ^ 16) polynom,
  bit_xor_digit (t * 2 % 2 ^ 16) polynom,
  bit_xor-cancel (s * 2 % 2 ^ 16) polynom,
  bit_xor-cancel (t * 2 % 2 ^ 16) polynom,
)

-- A register and a message word are shifted left together; the polynomial is added if just one
-- of the two bits that are pushed out is set.
unfoldable pub serial_step : ℕ → ℕ → ℕ
serial_step s bit =
    if (s / 2 ^ 15 + bit) % 2 == 0 then s * 2 % 2 ^ 16 else bit_xor (s * 2 % 2 ^ 16) polynom

unfoldable pub serial : ℕ → ℕ → ℕ → ℕ
unfolding serial_step
serial zero s word = s
serial (suc n) s word = serial n (serial_step s (word / 2 ^ 15)) (word * 2 % 2 ^ 16)

shift_word : ℕ → ℕ → ℕ
shift_word zero word = word
shift_word (suc n) word = shift_word n (word * 2 % 2 ^ 16)

serial_step-lt : (s bit : ℕ) → serial_step s bit < 2 ^ 16
unfolding serial_step
serial_step-lt s bit = ground (arith, bit_xor-lt 16 (s * 2 % 2 ^ 16) polynom)

bit_xor_bits : (p q : ℕ) → p < 2 → q < 2 → bit_xor p q ≡ (p + q) % 2
bit_xor_bits p q hp hq = ground (arith, bit_xor_digit p q)

bit_xor_double : (a b : ℕ) → bit_xor (a * 2) (b * 2) ≡ bit_xor a b * 2
bit_xor_double a b = ground (arith, bit_xor_fields 1 a b 0 0)

bit_xor_swap : (a b c : ℕ) → bit_xor (bit_xor a b) c ≡ bit_xor (bit_xor a c) b
bit_xor_swap a b c = rw (bit_xor_assoc a b c, bit_xor_comm b c, bit_xor_assoc a c b)

-- The registers cut at the top bit: `p` and `q` are pushed out.
cut_step :
    (p q a b : ℕ)
    → p < 2
    → q < 2
    → a < 2 ^ 15
    → b < 2 ^ 15
    → register_round (bit_xor (p * 2 ^ 15 + a) (q * 2 ^ 15 + b))
      ≡ bit_xor (serial_step (p * 2 ^ 15 + a) q) (b * 2)
unfolding register_round serial_step
cut_step p q a b hp hq ha hb = ground (
  arith,
  bit_xor_fields 15 p q a b,
  bit_xor_bits p q,
  bit_xor-lt 15 a b,
  bit_xor_double a b,
  bit_xor_swap (a * 2) polynom (b * 2),
)

register_round-serial_step :
    (s x : ℕ)
    → s < 2 ^ 16
    → x < 2 ^ 16
    → register_round (bit_xor s x) ≡ bit_xor (serial_step s (x / 2 ^ 15)) (x * 2 % 2 ^ 16)
register_round-serial_step s x hs hx =
    ground (arith, cut_step (s / 2 ^ 15) (x / 2 ^ 15) (s % 2 ^ 15) (x % 2 ^ 15))

crc_rounds-serial :
    (n s x : ℕ)
    → s < 2 ^ 16
    → x < 2 ^ 16
    → crc_rounds n (bit_xor s x) ≡ bit_xor (serial n s x) (shift_word n x)
unfolding crc_rounds serial shift_word
crc_rounds-serial zero s x hs hx = refl
crc_rounds-serial (suc n) s x hs hx =
    rw
      (
        crc_round-register (bit_xor s x) (bit_xor-lt 16 s x hs hx),
        register_round-serial_step s x hs hx,
      )
      (crc_rounds-serial n _ _ (serial_step-lt s (x / 2 ^ 15)) (omega arith))

-- The message is fed to the register bit by bit, the highest bit of each byte first.
unfoldable pub ccitt : ℕ → List ℕ → ℕ
unfolding serial
ccitt s [] = s
ccitt s (b ∷ bs) = ccitt (serial 8 s (b * 2 ^ 8)) bs

pub crc_byte_lem : (s b : ℕ) → crc_byte s b ≡ crc_rounds 8 (bit_xor s (b * 2 ^ 8 % 2 ^ 32))
unfolding crc_byte
crc_byte_lem s b = refl

shift_word_byte : (b : ℕ) → b < 256 → shift_word 8 (b * 2 ^ 8) ≡ 0
unfolding shift_word
shift_word_byte b h = omega arith

crc_byte-serial : (s b : ℕ) → s < 2 ^ 16 → b < 256 → crc_byte s b ≡ serial 8 s (b * 2 ^ 8)
crc_byte-serial s b hs hb =
    crc_byte_lem s b
    ∙ ap (λ (t : ℕ). crc_rounds 8 (bit_xor s t)) (omega arith)
    ∙ crc_rounds-serial 8 s (b * 2 ^ 8) hs (omega arith)
    ∙ ap (λ (t : ℕ). bit_xor (serial 8 s (b * 2 ^ 8)) t) (shift_word_byte b hb)
    ∙ bit_xor-zero (serial 8 s (b * 2 ^ 8))

serial-lt : (n s x : ℕ) → s < 2 ^ 16 → serial n s x < 2 ^ 16
unfolding serial
serial-lt zero s x h = h
serial-lt (suc n) s x h = serial-lt n _ _ (serial_step-lt s (x / 2 ^ 15))

crc_bytes-ccitt :
    (bs : List ℕ) (s : ℕ)
    → s < 2 ^ 16
    → IsBytes bs
    → (crc_bytes s bs ≡ ccitt s bs) × (ccitt s bs < 2 ^ 16)
unfolding crc_bytes ccitt
crc_bytes-ccitt [] s h hb = (refl, h)
crc_bytes-ccitt (b ∷ bs) s h (hb, hbs) =
    rw (crc_byte-serial s b h hb)
      (crc_bytes-ccitt bs (serial 8 s (b * 2 ^ 8)) (serial-lt 8 s (b * 2 ^ 8) h) hbs)

pub crc_byte-lt : (s b : ℕ) → s < 2 ^ 16 → b < 256 → crc_byte s b < 2 ^ 16
crc_byte-lt s b hs hb = rw (crc_byte-serial s b hs hb) (serial-lt 8 s (b * 2 ^ 8) hs)

pub crc_bytes-lt : (bs : List ℕ) (s : ℕ) → s < 2 ^ 16 → IsBytes bs → crc_bytes s bs < 2 ^ 16
crc_bytes-lt bs s hs hb = let (same, small) = crc_bytes-ccitt bs s hs hb in rw same small

-- `& 0x01` of the length asks whether it is odd.
unfoldable pub pad : List ℕ → List ℕ
pad input = if length input % 2 == 1 then 0 ∷ [] else []

pub padded-pad : (input : List ℕ) → padded input ≡ input ++ pad input
unfolding padded pad
padded-pad input = ground (arith, bit_and_ones 1 (length input / 2) (length input % 2) 1)

pub pad-IsBytes : (input : List ℕ) → IsBytes (pad input)
unfolding pad
pad-IsBytes input = ground arith

-- The padding depends on the length only.
pub pad-length : (xs ys : List ℕ) → length xs ≡ length ys → pad xs ≡ pad ys
unfolding pad
pad-length xs ys e = rw e refl

-- On bytes, `crc16` is the 16-bit CCITT register started at 0xffff and fed with the input, and
-- with a zero byte behind it if its length is odd; it is less than 2 ^ 16.
pub crc16-ccitt :
    (input : List ℕ)
    → IsBytes input
    → (crc16 input ≡ ccitt 0xffff (input ++ pad input)) × (crc16 input < 2 ^ 16)
unfolding crc16
crc16-ccitt input h =
    let (same, small) =
      crc_bytes-ccitt (input ++ pad input) 0xffff (omega arith)
        (All-append IsByte input (pad input) h (pad-IsBytes input)) in
    rw (padded-pad input, same) (omega arith, omega arith)
