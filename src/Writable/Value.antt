-- ===== src/Writable/Value.antt =====
-- The number that a pattern of Rust's f64 or f32 stands for, in units of 2 ^ -1074, the least
-- number above 0, and that `le` of Double is the order of these numbers.
use native.Mathlib.Nat.{pow-suc, one-le-pow, pow-le-pow_right}
use native.Mathlib.Nat.{mul-lt-mul_of_pos_right, mul-le-mul_right}
use rctpower_protocol.Base.{ℕ, zero, suc, ◌+◌, ◌-◌, ◌*◌, ◌/◌, ◌%◌, ◌^◌, ◌≤◌, ◌<◌, ◌≡◌, refl}
use rctpower_protocol.Base.{sym, ap, ◌∙◌, arith}
use rctpower_protocol.Base.{Bool, true, false, ◌&&◌, leb, ◌==◌, if◌then◌else◌}
use rctpower_protocol.Base.{Bool-cases, inl, inr}
use rctpower_protocol.Base.Int.{ℤ, pos, negsuc}
use rctpower_protocol.Writable.Double.{is_nan, le, le_int}
use rctpower_protocol.Writable.Double.{leb_refl}

-- An exponent and a fraction, below a hidden bit unless the exponent is 0.
abbrev pub scaled : ℕ → ℕ → ℕ → ℕ
scaled hidden exp frac = if exp == 0 then frac else (hidden + frac) * 2 ^ (exp - 1)

unfoldable pub f64_size : ℕ → ℕ
f64_size d = scaled (2 ^ 52) (d / 2 ^ 52) (d % 2 ^ 52)

unfoldable pub f32_size : ℕ → ℕ
f32_size f = scaled (2 ^ 23) (f / 2 ^ 23 % 2 ^ 8) (f % 2 ^ 23)

abbrev pub signed_size : Bool → ℕ → ℤ
signed_size true (suc n) = negsuc n
signed_size _ n = pos n

unfoldable pub f64_units : ℕ → ℤ
unfolding f64_size
f64_units d = signed_size (leb (2 ^ 63) d) (f64_size (d % 2 ^ 63))

-- The least f32 above 0 is 2 ^ -149.
unfoldable pub f32_units : ℕ → ℤ
unfolding f32_size
f32_units f = signed_size (leb (2 ^ 31) f) (f32_size f * 2 ^ 925)

pub pred_suc : (n : ℕ) → suc n - 1 ≡ n
pred_suc n = omega arith

pub f64_size-normal :
    (exp frac : ℕ) → frac < 2 ^ 52 → f64_size (suc exp * 2 ^ 52 + frac) ≡ (2 ^ 52 + frac) * 2 ^ exp
unfolding f64_size
f64_size-normal exp frac h =
    let high : (suc exp * 2 ^ 52 + frac) / 2 ^ 52 ≡ suc exp = omega (arith, h) in
    let low : (suc exp * 2 ^ 52 + frac) % 2 ^ 52 ≡ frac = omega (arith, h) in
    let other : (suc exp == 0) ≡ false = ground arith in rw (high, low, other, pred_suc exp) refl

power_positive : (k : ℕ) → 0 < 2 ^ k
power_positive k = one-le-pow k 2 (omega arith)

-- A pattern with a lower exponent is a lower number.
scaled-lt : (exp frac : ℕ) → frac < 2 ^ 52 → scaled (2 ^ 52) exp frac < 2 ^ 52 * 2 ^ exp
scaled-lt zero frac h = h
scaled-lt (suc exp) frac h =
    let other : (suc exp == 0) ≡ false = ground arith in
    rw (other, pred_suc exp, pow-suc 2 exp)
      (omega (
        arith,
        mul-lt-mul_of_pos_right {m = 2 ^ 52 + frac} {n = 2 ^ 53} {k = 2 ^ exp} (omega (arith, h))
            (power_positive exp),
      ))

le-scaled : (exp frac : ℕ) → 2 ^ 52 * 2 ^ exp ≤ scaled (2 ^ 52) (suc exp) frac
le-scaled exp frac =
    let other : (suc exp == 0) ≡ false = ground arith in
    rw (other, pred_suc exp)
      (mul-le-mul_right {m = 2 ^ 52} {n = 2 ^ 52 + frac} (2 ^ exp) (omega arith))

scaled_mono : (exp m n : ℕ) → m < n → scaled (2 ^ 52) exp m < scaled (2 ^ 52) exp n
scaled_mono zero m n h = h
scaled_mono (suc exp) m n h =
    let other : (suc exp == 0) ≡ false = ground arith in
    rw (other, pred_suc exp)
      (mul-lt-mul_of_pos_right {m = 2 ^ 52 + m} {n = 2 ^ 52 + n} {k = 2 ^ exp} (omega (arith, h))
        (power_positive exp))

scaled_above :
    (low high m n : ℕ) → low < high → m < 2 ^ 52 → scaled (2 ^ 52) low m < scaled (2 ^ 52) high n
scaled_above low zero m n less h = absurd (omega (arith, less))
scaled_above low (suc high) m n less h =
    let powers : 2 ^ low ≤ 2 ^ high =
      pow-le-pow_right {n = 2} (omega arith) {i = low} {j = high} (omega (arith, less)) in
    omega (arith, scaled-lt low m h, le-scaled high n, powers)

f64_size_mono : (d e : ℕ) → d < e → f64_size d < f64_size e
unfolding f64_size
f64_size_mono d e h = elim (Bool-cases (d / 2 ^ 52 == e / 2 ^ 52)) [
  | inl same ↦
      let exps : d / 2 ^ 52 ≡ e / 2 ^ 52 = ground arith in
      rw exps (scaled_mono (e / 2 ^ 52) (d % 2 ^ 52) (e % 2 ^ 52) (omega (arith, h, exps)))
  | inr other ↦
      scaled_above (d / 2 ^ 52) (e / 2 ^ 52) (d % 2 ^ 52) (e % 2 ^ 52) (ground arith) (omega arith)
]

leb-f64_size : (d e : ℕ) → leb (f64_size d) (f64_size e) ≡ leb d e
leb-f64_size d e = elim (Bool-cases (leb d e)) [
  | inl below ↦ elim (Bool-cases (d == e)) [
    | inl same ↦
        let equal : d ≡ e = ground arith in
        ap (λ k. leb (f64_size d) (f64_size k)) (sym equal) ∙ leb_refl (f64_size d) ∙ sym below
    | inr other ↦
        let kept = f64_size_mono d e (ground arith) in
        let ordered : leb (f64_size d) (f64_size e) ≡ true = ground arith in ordered ∙ sym below
  ]
  | inr above ↦ ground (arith, f64_size_mono e d)
]

pub f64_size_zero : f64_size 0 ≡ 0
unfolding f64_size
f64_size_zero = refl

-- The order of two signed sizes.
abbrev order : Bool → ℕ → Bool → ℕ → Bool
order true x true y = leb y x
order true x false y = true
order false x true y = x == 0 && y == 0
order false x false y = leb x y

le_int-signed_size :
    (s t : Bool) (x y : ℕ) → le_int (signed_size s x) (signed_size t y) ≡ order s x t y
unfolding le_int
le_int-signed_size true true zero zero = ground arith
le_int-signed_size true true zero (suc y) = ground arith
le_int-signed_size true true (suc x) zero = ground arith
le_int-signed_size true true (suc x) (suc y) = ground arith
le_int-signed_size true false zero y = ground arith
le_int-signed_size true false (suc x) y = refl
le_int-signed_size false true x zero = ground arith
le_int-signed_size false true x (suc y) = ground arith
le_int-signed_size false false x y = refl

-- Only the pattern 0 is of size 0.
f64_size-is_zero : (d : ℕ) → (f64_size d == 0) ≡ (d == 0)
f64_size-is_zero d =
    let other = leb-f64_size d 0 in
    let zeroes : leb (f64_size d) 0 ≡ leb d 0 = ap (leb (f64_size d)) (sym f64_size_zero) ∙ other in
    ground (arith, zeroes)

-- `<=` on patterns that are no NaN is the order of their numbers.
pub le-f64_units :
    (d e : ℕ)
    → d < 2 ^ 64
    → e < 2 ^ 64
    → is_nan d ≡ false
    → is_nan e ≡ false
    → le d e ≡ le_int (f64_units d) (f64_units e)
unfolding le f64_units
le-f64_units d e hd he nd ne =
    let m = d % 2 ^ 63 in
    let n = e % 2 ^ 63 in
    rw (nd, ne, le_int-signed_size (leb (2 ^ 63) d) (leb (2 ^ 63) e) (f64_size m) (f64_size n))
      (elim (Bool-cases (leb (2 ^ 63) d)) [
        | inl below ↦ elim (Bool-cases (leb (2 ^ 63) e)) [
          | inl low ↦ rw (below, low, leb-f64_size n m) (ground arith)
          | inr low ↦ rw (below, low) refl
        ]
        | inr above ↦ elim (Bool-cases (leb (2 ^ 63) e)) [
          | inl low ↦ rw (above, low, f64_size-is_zero m, f64_size-is_zero n) (ground arith)
          | inr high ↦ rw (above, high, leb-f64_size m n) (ground arith)
        ]
      ])
