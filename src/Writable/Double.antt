-- ===== src/Writable/Double.antt =====
-- Rust's f64 as its bit pattern, a number below 2 ^ 64: comparison, and the casts from integers and
-- from f32 that src/writable.rs uses.
use rctpower_protocol.Base.{ℕ, zero, suc, ◌+◌, ◌-◌, ◌*◌, ◌/◌, ◌%◌, ◌^◌, ◌≤◌, ◌<◌, ◌≡◌}
use rctpower_protocol.Base.{sym, ap, ◌∙◌, arith}
use rctpower_protocol.Base.{Bool, true, false, not, ◌&&◌, leb, ltb, ◌==◌, if◌then◌else◌}
use rctpower_protocol.Base.{Bool-cases, inl, inr}
use rctpower_protocol.Base.Int.{ℤ, pos, negsuc}

-- `f.is_nan()`.
unfoldable pub is_nan : ℕ → Bool
is_nan d = ltb 0x7ff0000000000000 (d % 2 ^ 63)

abbrev negative : ℕ → Bool
negative d = leb (2 ^ 63) d

-- `<=`: the patterns below 2 ^ 63 are in the order of their numbers, those from there on are their
-- negatives, and no NaN is in an order.
unfoldable pub le : ℕ → ℕ → Bool
unfolding is_nan
le d e =
    not (is_nan d)
    && not (is_nan e)
    && (if negative d
        then (if negative e then leb e d else true)
        else (if negative e then d == 0 && e == 2 ^ 63 else leb d e))

-- A number from 1 up to 2 ^ 53 - 1 at the exponent `exp`: it is doubled until its highest bit is
-- the hidden one.
unfoldable pub normal : ℕ → ℕ → ℕ → ℕ
normal zero exp n = 0
normal (suc fuel) exp n =
    let doubled = normal fuel (exp - 1) (n + n) in
    if leb (2 ^ 52) n then exp * 2 ^ 52 + (n - 2 ^ 52) else doubled

unfoldable pub of_nat : ℕ → ℕ
unfolding normal
of_nat n = if n == 0 then 0 else normal 53 1075 n

-- `i as f64` for an integer below 2 ^ 53, which is exact.
unfoldable pub of_int : ℤ → ℕ
unfolding of_nat
of_int (pos n) = of_nat n
of_int (negsuc n) = 2 ^ 63 + of_nat (n + 1)

-- `f as f64` for an f32, which is exact. A subnormal number of the one is normal in the other.
abbrev pub widened : ℕ → ℕ → ℕ
widened exp frac =
    if exp == 255
    then 2047 * 2 ^ 52 + frac * 2 ^ 29
    else if exp == 0
    then (if frac == 0 then 0 else normal 53 926 frac)
    else (exp + 896) * 2 ^ 52 + frac * 2 ^ 29

unfoldable pub of_f32 : ℕ → ℕ
unfolding normal
of_f32 f =
    let size = widened (f / 2 ^ 23 % 2 ^ 8) (f % 2 ^ 23) in
    if leb (2 ^ 31) f then 2 ^ 63 + size else size

-- `<=` on integers.
unfoldable pub le_int : ℤ → ℤ → Bool
le_int (pos m) (pos n) = leb m n
le_int (pos m) (negsuc n) = false
le_int (negsuc m) (pos n) = true
le_int (negsuc m) (negsuc n) = leb n m

-- Doubling so often reaches the hidden bit.
abbrev pub Enough : ℕ → ℕ → Type 0
Enough zero n = ⊥
Enough (suc fuel) n = (n < 2 ^ 52) → Enough fuel (n + n)

Enough-le : (fuel m n : ℕ) → m ≤ n → Enough fuel m → Enough fuel n
Enough-le zero m n h e = e
Enough-le (suc fuel) m n h e =
    λ small. Enough-le fuel (m + m) (n + n) (omega (arith, h)) (e (omega (arith, small, h)))

-- The pattern stays below that of the next exponent.
pub normal-lt : (fuel exp n : ℕ) → n < 2 ^ 53 → fuel ≤ exp → normal fuel exp n < (exp + 1) * 2 ^ 52
unfolding normal
normal-lt zero exp n h e = omega arith
normal-lt (suc fuel) exp n h e = elim (Bool-cases (leb (2 ^ 52) n)) [
  | inl big ↦ rw (big, normal) (omega (arith, h))
  | inr small ↦
      let doubled : n + n < 2 ^ 53 = ground arith in
      rw (small, normal)
        (omega (arith, normal-lt fuel (exp - 1) (n + n) doubled (omega (arith, e))))
]

normal_mono :
    (fuel exp m n : ℕ)
    → Enough fuel m
    → fuel ≤ exp
    → m < n
    → n < 2 ^ 53
    → normal fuel exp m < normal fuel exp n
unfolding normal
normal_mono zero exp m n enough h less bound = absurd enough
normal_mono (suc fuel) exp m n enough h less bound = elim (Bool-cases (leb (2 ^ 52) m)) [
  | inl big ↦
      let also : leb (2 ^ 52) n ≡ true = ground arith in
      let least : 2 ^ 52 ≤ m = ground arith in rw (big, also, normal) (omega (arith, less, least))
  | inr small ↦
      let doubled : m + m < 2 ^ 53 = ground arith in
      let later : m < 2 ^ 52 = ground arith in
      elim (Bool-cases (leb (2 ^ 52) n)) [
        | inl big ↦
            rw (small, big, normal)
              (omega (arith, normal-lt fuel (exp - 1) (m + m) doubled (omega (arith, h)), h))
        | inr little ↦
            let also_doubled : n + n < 2 ^ 53 = ground arith in
            rw (small, little, normal)
              (normal_mono fuel (exp - 1) (m + m) (n + n) (enough later) (omega (arith, h))
                (omega (arith, less)) also_doubled)
      ]
]

one-Enough : Enough 53 1
one-Enough = ground arith

normal_positive : (fuel exp n : ℕ) → Enough fuel n → fuel ≤ exp → 0 < normal fuel exp n
unfolding normal
normal_positive zero exp n enough h = absurd enough
normal_positive (suc fuel) exp n enough h = elim (Bool-cases (leb (2 ^ 52) n)) [
  | inl big ↦ rw (big, normal) (omega (arith, h))
  | inr small ↦
      let later : n < 2 ^ 52 = ground arith in
      rw (small, normal) (normal_positive fuel (exp - 1) (n + n) (enough later) (omega (arith, h)))
]

pub some-Enough : (n : ℕ) → 1 ≤ n → Enough 53 n
some-Enough n h = Enough-le 53 1 n h one-Enough

of_nat_mono : (m n : ℕ) → m < n → n < 2 ^ 53 → of_nat m < of_nat n
unfolding of_nat
of_nat_mono zero n less bound =
    let other : (n == 0) ≡ false = ground arith in
    rw other (normal_positive 53 1075 n (some-Enough n (omega (arith, less))) (omega arith))
of_nat_mono (suc m) n less bound =
    let other : (n == 0) ≡ false = ground arith in
    let this : (suc m == 0) ≡ false = ground arith in
    rw (other, this)
      (normal_mono 53 1075 (suc m) n (some-Enough (suc m) (omega arith)) (omega arith) less bound)

of_nat-lt : (n : ℕ) → n < 2 ^ 53 → of_nat n < 1076 * 2 ^ 52
unfolding of_nat
of_nat-lt zero h = omega arith
of_nat-lt (suc n) h =
    let other : (suc n == 0) ≡ false = ground arith in
    rw other (omega (arith, normal-lt 53 1075 (suc n) h (omega arith)))

pub leb_refl : (n : ℕ) → leb n n ≡ true
leb_refl n = ground arith

leb-of_nat : (m n : ℕ) → m < 2 ^ 53 → n < 2 ^ 53 → leb (of_nat m) (of_nat n) ≡ leb m n
leb-of_nat m n hm hn = elim (Bool-cases (leb m n)) [
  | inl e ↦ elim (Bool-cases (m == n)) [
    | inl same ↦
        let equal : m ≡ n = ground arith in
        ap (λ k. leb (of_nat m) (of_nat k)) (sym equal) ∙ leb_refl (of_nat m) ∙ sym e
    | inr other ↦
        let less : m < n = ground arith in
        let kept = of_nat_mono m n less hn in
        let ordered : leb (of_nat m) (of_nat n) ≡ true = ground arith in ordered ∙ sym e
  ]
  | inr e ↦ ground (arith, of_nat_mono n m)
]

-- An integer between -(2 ^ 53) and 2 ^ 53, which an f64 holds exactly.
abbrev pub IsExact : ℤ → Type 0
IsExact (pos n) = n < 2 ^ 53
IsExact (negsuc n) = n + 1 < 2 ^ 53

-- The comparison of patterns that are no NaN, by their signs.
module _ (a b : ℕ) (ha : a < 1076 * 2 ^ 52) (hb : b < 1076 * 2 ^ 52) where
  le_positive : le a b ≡ leb a b
  unfolding le is_nan
  le_positive = ground arith

  le_negative : le (2 ^ 63 + a) (2 ^ 63 + b) ≡ leb b a
  unfolding le is_nan
  le_negative = ground arith

  le_below : le (2 ^ 63 + a) b ≡ true
  unfolding le is_nan
  le_below = ground arith

  le_above : 0 < b → le a (2 ^ 63 + b) ≡ false
  unfolding le is_nan
  le_above h = ground arith

leb_suc : (m n : ℕ) → leb (m + 1) (n + 1) ≡ leb m n
leb_suc m n = ground arith

-- Exact integers are in the same order as f64.
pub le-of_int : (y z : ℤ) → IsExact y → IsExact z → le (of_int y) (of_int z) ≡ le_int y z
unfolding of_int le_int
le-of_int (pos m) (pos n) hm hn =
    le_positive (of_nat m) (of_nat n) (of_nat-lt m hm) (of_nat-lt n hn) ∙ leb-of_nat m n hm hn
le-of_int (pos m) (negsuc n) hm hn =
    le_above (of_nat m) (of_nat (n + 1)) (of_nat-lt m hm) (of_nat-lt (n + 1) hn)
      (of_nat_mono 0 (n + 1) (omega arith) hn)
le-of_int (negsuc m) (pos n) hm hn =
    le_below (of_nat (m + 1)) (of_nat n) (of_nat-lt (m + 1) hm) (of_nat-lt n hn)
le-of_int (negsuc m) (negsuc n) hm hn =
    le_negative (of_nat (m + 1)) (of_nat (n + 1)) (of_nat-lt (m + 1) hm) (of_nat-lt (n + 1) hn)
    ∙ leb-of_nat (n + 1) (m + 1) hn hm
    ∙ leb_suc n m

is_nan_positive : (a : ℕ) → a < 1076 * 2 ^ 52 → is_nan a ≡ false
unfolding is_nan
is_nan_positive a h = ground arith

is_nan_negative : (a : ℕ) → a < 1076 * 2 ^ 52 → is_nan (2 ^ 63 + a) ≡ false
unfolding is_nan
is_nan_negative a h = ground arith

pub is_nan-of_int : (z : ℤ) → IsExact z → is_nan (of_int z) ≡ false
unfolding of_int
is_nan-of_int (pos n) h = is_nan_positive (of_nat n) (of_nat-lt n h)
is_nan-of_int (negsuc n) h = is_nan_negative (of_nat (n + 1)) (of_nat-lt (n + 1) h)
