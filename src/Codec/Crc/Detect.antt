-- ===== src/Codec/Crc/Detect.antt =====
-- `crc16` of src/codec.rs on inputs that differ in one byte.
use rctpower_protocol.Base.{ℕ, zero, suc, ◌*◌, ◌^◌, ◌<◌, ◌≡◌, ◌≢◌, refl, sym, ap, ◌∙◌, arith}
use rctpower_protocol.Base.{List, [], ◌∷◌, ◌++◌, append_assoc, bit_xor, length-append}
use rctpower_protocol.Base.{All-append}
use rctpower_protocol.Base.Bytes.{IsByte, IsBytes}
use rctpower_protocol.Base.Bits.{bit_xor-cancel, bit_xor-lt, bit_xor_comm}
use rctpower_protocol.Codec.Crc.{crc_round, crc_rounds, crc_byte, crc_bytes, crc16}
use rctpower_protocol.Codec.Crc.Laws.{crc_round-register, register_round-lt}
use rctpower_protocol.Codec.Crc.Laws.{register_round-injective}
use rctpower_protocol.Codec.Crc.Laws.{crc_byte_lem, crc_byte-lt, crc_bytes-lt, pad, pad-length}
use rctpower_protocol.Codec.Crc.Laws.{padded-pad, pad-IsBytes}
use native.Mathlib.Nat.{mod-eq_of_lt}

crc_round-lt : (s : ℕ) → s < 2 ^ 16 → crc_round s < 2 ^ 16
crc_round-lt s h = rw (crc_round-register s h) (register_round-lt s h)

crc_rounds-injective :
    (n s t : ℕ) → s < 2 ^ 16 → t < 2 ^ 16 → crc_rounds n s ≡ crc_rounds n t → s ≡ t
unfolding crc_rounds
crc_rounds-injective zero s t hs ht e = e
crc_rounds-injective (suc n) s t hs ht e = register_round-injective s t hs ht (
    sym (crc_round-register s hs)
    ∙ crc_rounds-injective n (crc_round s) (crc_round t) (crc_round-lt s hs) (crc_round-lt t ht) e
    ∙ crc_round-register t ht)

-- The registers after the exclusive or with a byte are equal if the registers after the byte are.
crc_byte-injective :
    (s t a b : ℕ)
    → s < 2 ^ 16
    → t < 2 ^ 16
    → a < 256
    → b < 256
    → crc_byte s a ≡ crc_byte t b
    → bit_xor s (a * 2 ^ 8) ≡ bit_xor t (b * 2 ^ 8)
crc_byte-injective s t a b hs ht ha hb e =
    crc_rounds-injective 8 _ _ (bit_xor-lt 16 s (a * 2 ^ 8) hs (omega arith))
      (bit_xor-lt 16 t (b * 2 ^ 8) ht (omega arith)) (sym (at s a ha) ∙ e ∙ at t b hb)
  where
    at : (x c : ℕ) → c < 256 → crc_byte x c ≡ crc_rounds 8 (bit_xor x (c * 2 ^ 8))
    at x c hc = crc_byte_lem x c ∙ ap (λ (w : ℕ). crc_rounds 8 (bit_xor x w)) (omega arith)

crc_byte-injective_state :
    (s t b : ℕ) → s < 2 ^ 16 → t < 2 ^ 16 → b < 256 → crc_byte s b ≡ crc_byte t b → s ≡ t
crc_byte-injective_state s t b hs ht hb e =
    sym (bit_xor-cancel s (b * 2 ^ 8))
    ∙ ap (λ (x : ℕ). bit_xor x (b * 2 ^ 8)) (crc_byte-injective s t b b hs ht hb hb e)
    ∙ bit_xor-cancel t (b * 2 ^ 8)

crc_byte-injective_byte :
    (s a b : ℕ) → s < 2 ^ 16 → a < 256 → b < 256 → crc_byte s a ≡ crc_byte s b → a ≡ b
crc_byte-injective_byte s a b hs ha hb e = omega (
  arith,
  sym (bit_xor-cancel (a * 2 ^ 8) s),
  ap (λ (x : ℕ). bit_xor x s)
      (bit_xor_comm (a * 2 ^ 8) s
        ∙ crc_byte-injective s s a b hs hs ha hb e
        ∙ bit_xor_comm s (b * 2 ^ 8)),
  bit_xor-cancel (b * 2 ^ 8) s,
)

crc_bytes-injective_state :
    (bs : List ℕ) (s t : ℕ)
    → s < 2 ^ 16
    → t < 2 ^ 16
    → IsBytes bs
    → crc_bytes s bs ≡ crc_bytes t bs
    → s ≡ t
unfolding crc_bytes
crc_bytes-injective_state [] s t hs ht hb e = e
crc_bytes-injective_state (b ∷ bs) s t hs ht (hb, hbs) e = crc_byte-injective_state s t b hs ht hb (
    crc_bytes-injective_state bs (crc_byte s b) (crc_byte t b) (crc_byte-lt s b hs hb)
      (crc_byte-lt t b ht hb) hbs e)

crc_bytes-append : (s : ℕ) (xs ys : List ℕ) → crc_bytes s (xs ++ ys) ≡ crc_bytes (crc_bytes s xs) ys
unfolding crc_bytes
crc_bytes-append s [] ys = refl
crc_bytes-append s (x ∷ xs) ys = crc_bytes-append (crc_byte s x) xs ys

-- The checksum with a byte `x` between `front` and `back`, as the register after `front` goes on.
crc16_around :
    (front back : List ℕ) (x y : ℕ)
    → IsBytes front
    → IsBytes back
    → x < 256
    → crc16 (front ++ x ∷ back)
      ≡ crc_bytes (crc_byte (crc_bytes 0xffff front) x) (back ++ pad (front ++ y ∷ back))
unfolding crc16
crc16_around front back x y hf hk hx =
    rw
      (
        padded-pad (front ++ x ∷ back),
        append_assoc front (x ∷ back) (pad (front ++ x ∷ back)),
        crc_bytes-append 0xffff front (x ∷ back ++ pad (front ++ x ∷ back)),
        pad-length (front ++ x ∷ back) (front ++ y ∷ back)
            (length-append front (x ∷ back) ∙ sym (length-append front (y ∷ back))),
      )
      (mod-eq_of_lt (
        crc_bytes-lt _ _ (crc_byte-lt _ x (crc_bytes-lt front _ (omega arith) hf) hx)
          (All-append IsByte back _ hk (pad-IsBytes (front ++ y ∷ back)))))

-- Two inputs of bytes that differ in one place only, whatever stands before and behind it, have
-- different checksums.
pub crc16-detects_byte :
    (front back : List ℕ) (a b : ℕ)
    → IsBytes front
    → IsBytes back
    → a < 256
    → b < 256
    → a ≢ b
    → crc16 (front ++ a ∷ back) ≢ crc16 (front ++ b ∷ back)
crc16-detects_byte front back a b hf hk ha hb differ e =
    let s = crc_bytes 0xffff front in
    let small : s < 2 ^ 16 = crc_bytes-lt front 0xffff (omega arith) hf in
    differ (
      crc_byte-injective_byte s a b small ha hb (
        crc_bytes-injective_state (back ++ pad (front ++ a ∷ back)) (crc_byte s a) (crc_byte s b)
          (crc_byte-lt s a small ha) (crc_byte-lt s b small hb)
          (All-append IsByte back (pad (front ++ a ∷ back)) hk (pad-IsBytes (front ++ a ∷ back)))
          (sym (crc16_around front back a a hf hk ha) ∙ e ∙ crc16_around front back b a hf hk hb)))
