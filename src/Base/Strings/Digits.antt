-- ===== src/Base/Strings/Digits.antt =====
-- Numbers written in decimal and read again.
use rctpower_protocol.Base.{ℕ, zero, suc, ◌+◌, ◌-◌, ◌*◌, ◌/◌, ◌%◌, ◌≤◌, ◌<◌, ◌≡◌, ◌≢◌, refl}
use rctpower_protocol.Base.{ap, ◌∙◌, arith}
use rctpower_protocol.Base.{false, some, [], ◌∷◌, ltb, ◌==◌, inl}
use rctpower_protocol.Base.{inr, Bool-cases, All, if◌then◌else◌}
use rctpower_protocol.Base.Int.{ℤ, pos, negsuc}
use rctpower_protocol.Base.Text.{Text, decimal, decimal_int, decimal_loop}
use rctpower_protocol.Base.Strings.{digits, to_digit, unsigned_digits, parse_unsigned}
use rctpower_protocol.Base.Strings.{parse_signed}

-- A digit that does not exceed the maximum is taken.
pub digits_step :
    (radix max acc c v : ℕ) (s : Text)
    → to_digit radix c ≡ some v
    → acc * radix + v ≤ max
    → digits radix max acc (c ∷ s) ≡ digits radix max (acc * radix + v) s
unfolding digits
digits_step radix max acc c v s e h = rw (e, digits) (ground arith)

to_digit_10 : (d : ℕ) → d < 10 → to_digit 10 (b'0' + d) ≡ some d
unfolding to_digit
to_digit_10 d h = ground arith

digits-decimal_loop :
    (max fuel n : ℕ) (acc : Text)
    → n < fuel
    → n ≤ max
    → digits 10 max 0 (decimal_loop fuel n acc) ≡ digits 10 max n acc
unfolding decimal_loop
digits-decimal_loop max zero n acc h small = absurd (omega (arith, h))
digits-decimal_loop max (suc fuel) n acc h small = elim (Bool-cases (ltb n 10)) [
  | inl one_digit ↦
      rw (one_digit, decimal_loop)
        (digits_step 10 max 0 (b'0' + n % 10) (n % 10) acc (to_digit_10 (n % 10) (omega arith))
            (omega (arith, small))
          ∙ ap (λ k. digits 10 max k acc) (ground arith))
  | inr more ↦
      let last = b'0' + n % 10 in
      rw (more, decimal_loop)
        (digits-decimal_loop max fuel (n / 10) (last ∷ acc) (ground arith) (omega (arith, small))
          ∙ digits_step 10 max (n / 10) last (n % 10) acc (to_digit_10 (n % 10) (omega arith))
              (omega (arith, small))
          ∙ ap (λ k. digits 10 max k acc) (omega arith))
]

pub digits-decimal : (max n : ℕ) → n ≤ max → digits 10 max 0 (decimal n) ≡ some n
unfolding decimal digits
digits-decimal max n small = digits-decimal_loop max (suc n) n [] (omega arith) small

-- Upper case hexadecimal, as `format!("{n:X}")` gives it.
abbrev upper_digit : ℕ → ℕ
upper_digit d = if ltb d 10 then b'0' + d else b'A' + d - 10

hex_loop : ℕ → ℕ → Text → Text
hex_loop zero n acc = acc
hex_loop (suc fuel) n acc =
    let text = upper_digit (n % 16) ∷ acc in
    let more = hex_loop fuel (n / 16) text in if ltb n 16 then text else more

pub hex_upper : ℕ → Text
unfolding hex_loop
hex_upper n = hex_loop (suc n) n []

to_digit_16 : (d : ℕ) → d < 16 → to_digit 16 (upper_digit d) ≡ some d
unfolding to_digit
to_digit_16 d h = ground arith

digits-hex_loop :
    (max fuel n : ℕ) (acc : Text)
    → n < fuel
    → n ≤ max
    → digits 16 max 0 (hex_loop fuel n acc) ≡ digits 16 max n acc
unfolding hex_loop
digits-hex_loop max zero n acc h small = absurd (omega (arith, h))
digits-hex_loop max (suc fuel) n acc h small =
    let last = upper_digit (n % 16) in
    let taken = to_digit_16 (n % 16) (omega arith) in
    elim (Bool-cases (ltb n 16)) [
      | inl one_digit ↦
          rw (one_digit, hex_loop)
            (digits_step 16 max 0 last (n % 16) acc taken (omega (arith, small))
              ∙ ap (λ k. digits 16 max k acc) (ground arith))
      | inr more ↦
          rw (more, hex_loop)
            (digits-hex_loop max fuel (n / 16) (last ∷ acc) (ground arith) (omega (arith, small))
              ∙ digits_step 16 max (n / 16) last (n % 16) acc taken (omega (arith, small))
              ∙ ap (λ k. digits 16 max k acc) (omega arith))
    ]

digits-hex_upper : (max n : ℕ) → n ≤ max → digits 16 max 0 (hex_upper n) ≡ some n
unfolding hex_upper digits
digits-hex_upper max n small = digits-hex_loop max (suc n) n [] (omega arith) small

-- A figure or a capital letter.
abbrev pub IsFigure : ℕ → Type 0
IsFigure c = (b'0' ≤ c) × (c ≤ b'Z') × (c ≢ b';') × (c ≢ b'=') × (c ≢ b':')

upper_digit-IsFigure : (d : ℕ) → d < 16 → IsFigure (upper_digit d)
upper_digit-IsFigure d h = (ground arith, ground arith, ground arith, ground arith, ground arith)

decimal_digit-IsFigure : (d : ℕ) → d < 10 → IsFigure (b'0' + d)
decimal_digit-IsFigure d h =
    (omega (arith, h), omega (arith, h), ground arith, ground arith, ground arith)

hex_loop-IsFigure :
    (fuel n : ℕ) (acc : Text) → All IsFigure acc → All IsFigure (hex_loop fuel n acc)
unfolding hex_loop
hex_loop-IsFigure zero n acc h = h
hex_loop-IsFigure (suc fuel) n acc h =
    let last = upper_digit-IsFigure (n % 16) (omega arith) in
    let more = hex_loop-IsFigure fuel (n / 16) (upper_digit (n % 16) ∷ acc) (last, h) in
    elim (Bool-cases (ltb n 16)) [
      | inl e ↦ rw (e, hex_loop) (last, h)
      | inr e ↦ rw (e, hex_loop) more
    ]

decimal_loop-IsFigure :
    (fuel n : ℕ) (acc : Text) → All IsFigure acc → All IsFigure (decimal_loop fuel n acc)
unfolding decimal_loop
decimal_loop-IsFigure zero n acc h = h
decimal_loop-IsFigure (suc fuel) n acc h =
    let last = decimal_digit-IsFigure (n % 10) (omega arith) in
    let more = decimal_loop-IsFigure fuel (n / 10) ((b'0' + n % 10) ∷ acc) (last, h) in
    elim (Bool-cases (ltb n 10)) [
      | inl e ↦ rw (e, decimal_loop) (last, h)
      | inr e ↦ rw (e, decimal_loop) more
    ]

pub hex_upper-IsFigure : (n : ℕ) → All IsFigure (hex_upper n)
unfolding hex_upper
hex_upper-IsFigure n = hex_loop-IsFigure (suc n) n [] tt

pub decimal-IsFigure : (n : ℕ) → All IsFigure (decimal n)
unfolding decimal
decimal-IsFigure n = decimal_loop-IsFigure (suc n) n [] tt

hex_loop_some : (fuel n c : ℕ) (acc : Text) → hex_loop fuel n (c ∷ acc) ≢ []
unfolding hex_loop
hex_loop_some zero n c acc e = cc
hex_loop_some (suc fuel) n c acc e =
    ground (arith, hex_loop_some fuel (n / 16) (upper_digit (n % 16)) (c ∷ acc))

hex_upper_some : (n : ℕ) → hex_upper n ≢ []
unfolding hex_upper hex_loop
hex_upper_some n e = ground (arith, hex_loop_some n (n / 16) (upper_digit (n % 16)) [])

decimal_loop_some : (fuel n c : ℕ) (acc : Text) → decimal_loop fuel n (c ∷ acc) ≢ []
unfolding decimal_loop
decimal_loop_some zero n c acc e = cc
decimal_loop_some (suc fuel) n c acc e =
    ground (arith, decimal_loop_some fuel (n / 10) (b'0' + n % 10) (c ∷ acc))

decimal_some : (n : ℕ) → decimal n ≢ []
unfolding decimal decimal_loop
decimal_some n e = ground (arith, decimal_loop_some n (n / 10) (b'0' + n % 10) [])

parse_unsigned_figures :
    (radix max : ℕ) (s : Text)
    → s ≢ []
    → All IsFigure s
    → parse_unsigned radix max s ≡ digits radix max 0 s
unfolding parse_unsigned unsigned_digits
parse_unsigned_figures radix max [] some_bytes h = absurd (some_bytes refl)
parse_unsigned_figures radix max (c ∷ s) some_bytes ((low, _, _, _, _), hs) = ground arith

pub parse_unsigned-hex_upper : (max n : ℕ) → n ≤ max → parse_unsigned 16 max (hex_upper n) ≡ some n
parse_unsigned-hex_upper max n small =
    parse_unsigned_figures 16 max (hex_upper n) (hex_upper_some n) (hex_upper-IsFigure n)
    ∙ digits-hex_upper max n small

pub parse_unsigned-decimal : (max n : ℕ) → n ≤ max → parse_unsigned 10 max (decimal n) ≡ some n
parse_unsigned-decimal max n small =
    parse_unsigned_figures 10 max (decimal n) (decimal_some n) (decimal-IsFigure n)
    ∙ digits-decimal max n small

-- An integer of the signed type with the greatest number `max` is read as it is written.
abbrev pub InRange : ℕ → ℤ → Type 0
InRange max (pos n) = n ≤ max
InRange max (negsuc n) = n ≤ max

unsigned_digits_some :
    (radix max : ℕ) (s : Text) → s ≢ [] → unsigned_digits radix max s ≡ digits radix max 0 s
unfolding unsigned_digits
unsigned_digits_some radix max [] some_bytes = absurd (some_bytes refl)
unsigned_digits_some radix max (c ∷ s) some_bytes = refl

parse_signed_figures :
    (max n : ℕ) (s : Text)
    → s ≢ []
    → All IsFigure s
    → digits 10 max 0 s ≡ some n
    → parse_signed max s ≡ some (pos n)
unfolding parse_signed unsigned_digits
parse_signed_figures max n [] some_bytes h e = absurd (some_bytes refl)
parse_signed_figures max n (c ∷ s) some_bytes ((low, _, _, _, _), hs) e =
    let no_minus : (c == b'-') ≡ false = ground arith in
    let no_plus : (c == b'+') ≡ false = ground arith in rw (no_minus, no_plus, e, parse_signed) refl

pub parse_signed-decimal_int :
    (max : ℕ) (z : ℤ) → InRange max z → parse_signed max (decimal_int z) ≡ some z
unfolding parse_signed decimal_int
parse_signed-decimal_int max (pos n) small =
    parse_signed_figures max n (decimal n) (decimal_some n) (decimal-IsFigure n)
      (digits-decimal max n small)
parse_signed-decimal_int max (negsuc n) small =
    rw
      (
        unsigned_digits_some 10 (max + 1) (decimal (suc n)) (decimal_some (suc n)),
        digits-decimal (max + 1) (suc n) (omega (arith, small)),
      )
      refl
