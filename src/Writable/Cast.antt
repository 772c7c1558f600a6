-- ===== src/Writable/Cast.antt =====
-- The cast of src/writable.rs from f32 to f64 is exact.
use native.Mathlib.Nat.{pow-suc, zero-add, suc-add}
use rctpower_protocol.Base.{ℕ, zero, suc, ◌+◌, ◌-◌, ◌*◌, ◌/◌, ◌%◌, ◌^◌, ◌≤◌, ◌<◌, ◌≡◌, refl}
use rctpower_protocol.Base.{ap, arith}
use rctpower_protocol.Base.{true, false, leb, ◌==◌}
use rctpower_protocol.Base.{Bool-cases, inl, inr}
use rctpower_protocol.Base.Int.{pos}
use rctpower_protocol.Writable.Double.{is_nan, normal, of_f32, Enough, some-Enough}
use rctpower_protocol.Writable.Double.{widened, normal-lt}
use rctpower_protocol.Writable.Value.{scaled, f64_size, f32_size, signed_size, f64_units}
use rctpower_protocol.Writable.Value.{f32_units}
use rctpower_protocol.Writable.Value.{f64_size-normal, f64_size_zero, pred_suc}

-- Doubling keeps the number.
f64_size-doubled :
    (fuel exp n : ℕ)
    → Enough fuel n
    → fuel ≤ exp
    → n < 2 ^ 53
    → f64_size (normal fuel (suc exp) n) ≡ n * 2 ^ exp
unfolding normal
f64_size-doubled zero exp n enough h bound = absurd enough
f64_size-doubled (suc fuel) zero n enough h bound = absurd (omega (arith, h))
f64_size-doubled (suc fuel) (suc exp) n enough h bound = elim (Bool-cases (leb (2 ^ 52) n)) [
  | inl big ↦
      let least : 2 ^ 52 ≤ n = ground arith in
      let rest : n - 2 ^ 52 < 2 ^ 52 = omega (arith, bound) in
      let whole : 2 ^ 52 + (n - 2 ^ 52) ≡ n = omega (arith, least) in
      rw (big, normal, f64_size-normal (suc exp) (n - 2 ^ 52) rest, whole) refl
  | inr small ↦
      let little : n < 2 ^ 52 = ground arith in
      let twice : n + n < 2 ^ 53 = omega (arith, little) in
      rw
        (
          small,
          normal,
          pred_suc (suc exp),
          f64_size-doubled fuel exp (n + n) (enough little) (omega (arith, h)) twice,
        )
        (omega (arith, ap (λ (t : ℕ). n * t) (pow-suc 2 exp)))
]

power_add : (a b : ℕ) → 2 ^ (a + b) ≡ 2 ^ a * 2 ^ b
power_add zero b = rw (zero-add b) (omega arith)
power_add (suc a) b =
    rw (suc-add a b, pow-suc 2 (a + b), pow-suc 2 a) (omega (arith, power_add a b))

-- A finite f32 is the same number in the wider format.
f64_size-widened :
    (exp frac : ℕ)
    → exp < 255
    → frac < 2 ^ 23
    → f64_size (widened exp frac) ≡ scaled (2 ^ 23) exp frac * 2 ^ 925
f64_size-widened zero zero finite h = f64_size_zero
f64_size-widened zero (suc frac) finite h =
    let other : (suc frac == 0) ≡ false = ground arith in
    rw other (
      f64_size-doubled 53 925 (suc frac) (some-Enough (suc frac) (omega arith)) (omega arith)
        (omega (arith, h)))
f64_size-widened (suc exp) frac finite h =
    let finite' : (suc exp == 255) ≡ false = ground arith in
    let other : (suc exp == 0) ≡ false = ground arith in
    rw
      (
        finite',
        other,
        pred_suc exp,
        suc-add exp 896,
        f64_size-normal (exp + 896) (frac * 2 ^ 29) (omega (arith, h)),
        power_add exp 896,
      )
      (omega arith)

widened-lt : (exp frac : ℕ) → exp < 255 → frac < 2 ^ 23 → widened exp frac < 2047 * 2 ^ 52
widened-lt zero zero finite h = omega arith
widened-lt zero (suc frac) finite h =
    let other : (suc frac == 0) ≡ false = ground arith in
    rw other (omega (arith, normal-lt 53 926 (suc frac) (omega (arith, h)) (omega arith)))
widened-lt (suc exp) frac finite h =
    let finite' : (suc exp == 255) ≡ false = ground arith in
    let other : (suc exp == 0) ≡ false = ground arith in
    rw (finite', other) (omega (arith, h, finite))

f64_units_positive : (d : ℕ) → d < 2 ^ 63 → f64_units d ≡ pos (f64_size d)
unfolding f64_units
f64_units_positive d h =
    let sign : leb (2 ^ 63) d ≡ false = ground arith in
    let size : d % 2 ^ 63 ≡ d = omega (arith, h) in rw (sign, size) refl

f64_units_negative : (d : ℕ) → d < 2 ^ 63 → f64_units (2 ^ 63 + d) ≡ signed_size true (f64_size d)
unfolding f64_units
f64_units_negative d h =
    let sign : leb (2 ^ 63) (2 ^ 63 + d) ≡ true = ground arith in
    let size : (2 ^ 63 + d) % 2 ^ 63 ≡ d = omega (arith, h) in rw (sign, size) refl

-- The cast of a finite f32 to f64 is exact.
pub f64_units-of_f32 : (f : ℕ) → f / 2 ^ 23 % 2 ^ 8 < 255 → f64_units (of_f32 f) ≡ f32_units f
unfolding of_f32 f32_units f32_size
f64_units-of_f32 f finite =
    let exp = f / 2 ^ 23 % 2 ^ 8 in
    let frac = f % 2 ^ 23 in
    let below : frac < 2 ^ 23 = omega arith in
    let small : widened exp frac < 2 ^ 63 = omega (arith, widened-lt exp frac finite below) in
    let same = f64_size-widened exp frac finite below in
    elim (Bool-cases (leb (2 ^ 31) f)) [
      | inl sign ↦ rw (sign, f64_units_negative (widened exp frac) small, same) refl
      | inr sign ↦ rw (sign, f64_units_positive (widened exp frac) small, same) refl
    ]

not_nan : (d : ℕ) → d % 2 ^ 63 < 2047 * 2 ^ 52 → is_nan d ≡ false
unfolding is_nan
not_nan d h = ground arith

-- A finite f32 is no NaN as f64.
pub is_nan-of_f32 : (f : ℕ) → f / 2 ^ 23 % 2 ^ 8 < 255 → is_nan (of_f32 f) ≡ false
unfolding of_f32
is_nan-of_f32 f finite =
    let size = widened (f / 2 ^ 23 % 2 ^ 8) (f % 2 ^ 23) in
    let small = widened-lt (f / 2 ^ 23 % 2 ^ 8) (f % 2 ^ 23) finite (omega arith) in
    elim (Bool-cases (leb (2 ^ 31) f)) [
      | inl sign ↦ rw sign (not_nan (2 ^ 63 + size) (omega (arith, small)))
      | inr sign ↦ rw sign (not_nan size (omega (arith, small)))
    ]

pub of_f32-lt : (f : ℕ) → f / 2 ^ 23 % 2 ^ 8 < 255 → of_f32 f < 2 ^ 64
unfolding of_f32
of_f32-lt f finite =
    let small = widened-lt (f / 2 ^ 23 % 2 ^ 8) (f % 2 ^ 23) finite (omega arith) in
    elim (Bool-cases (leb (2 ^ 31) f)) [
      | inl sign ↦ rw sign (omega (arith, small))
      | inr sign ↦ rw sign (omega (arith, small))
    ]
