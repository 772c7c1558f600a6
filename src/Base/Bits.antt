-- ===== src/Base/Bits.antt =====
-- Laws of `bit_and` and `bit_xor` at variables, from the recursion on binary digits.
use Prim.Native.Nat.{ℕ, zero, suc, ◌+◌, ◌-◌, ◌*◌, ◌/◌, ◌%◌, ◌^◌, ◌≤◌, ◌<◌, min}
use Prim.Native.Nat.{bit_and, bit_xor, digits, bitwise, differ, bit_and-bitwise, bit_xor-bitwise}
use mathlib.Core.Path.{◌≡◌, refl, ap, ◌∙◌}
use mathlib.Core.Logic.{◌⊎◌, inl, inr}
use mathlib.Core.Bool.{Bool, true, ◌&&◌}
use native.Mathlib.Nat.{pow-suc, zero-add, suc-add}
use native.Mathlib.Omega.{arith}

-- A digit operation `g` on numbers, where `z` is what a number becomes against nothing.
module _ (z : ℕ → ℕ) (g : ℕ → ℕ → ℕ) where
  one_more : (x y n : ℕ) → x ≤ n → digits z g (suc n) x y ≡ digits z g n x y
  one_more x y zero few =
      elim x as (λ (t : ℕ). t ≤ 0 → digits z g 1 t y ≡ digits z g 0 t y) [
        | zero ↦ λ h. refl
        | suc t ↦ λ h. absurd (omega arith)
      ]
        few
  one_more zero y (suc n) few = refl
  one_more (suc x) y (suc n) few =
      let half = one_more (suc x / 2) (y / 2) n (omega arith) in
      ap (λ (t : ℕ). t * 2 + g (suc x % 2) (y % 2)) half

  -- Steps beyond the value of the first number change nothing.
  spare : (k x y : ℕ) → digits z g (k + x) x y ≡ digits z g x x y
  spare zero x y = rw (zero-add x) refl
  spare (suc k) x y = rw (suc-add k x) (one_more x y (k + x) (omega arith) ∙ spare k x y)

  last_digit :
      (y x : ℕ)
      → bitwise z g (suc x) y ≡ g (suc x % 2) (y % 2) + 2 * bitwise z g (suc x / 2) (y / 2)
  last_digit y x =
      let left = x - suc x / 2 in
      let enough : left + suc x / 2 ≡ x = omega arith in
      let cut = ap (λ (t : ℕ). digits z g t (suc x / 2) (y / 2)) enough in
      omega (arith, cut, spare left (suc x / 2) (y / 2))

pub bit_and_step : (a b : ℕ) → bit_and a b ≡ min (a % 2) (b % 2) + 2 * bit_and (a / 2) (b / 2)
bit_and_step zero y = simp bit_and-bitwise (omega arith)
bit_and_step (suc x) y = simp bit_and-bitwise (last_digit (λ t. 0) min y x)

bit_xor_step : (a b : ℕ) → bit_xor a b ≡ differ (a % 2) (b % 2) + 2 * bit_xor (a / 2) (b / 2)
bit_xor_step zero y = simp bit_xor-bitwise (omega arith)
bit_xor_step (suc x) y = simp bit_xor-bitwise (last_digit (λ t. t) differ y x)

-- The exclusive or of two digits, as `omega` reads it.
differ_digits : (x y : ℕ) → x < 2 → y < 2 → differ x y ≡ (x + y) % 2
differ_digits zero y p q = omega arith
differ_digits (suc zero) zero p q = refl
differ_digits (suc zero) (suc zero) p q = refl
differ_digits (suc zero) (suc (suc y)) p q = absurd (omega arith)
differ_digits (suc (suc x)) y p q = absurd (omega arith)

pub bit_xor_digit : (a b : ℕ) → bit_xor a b ≡ bit_xor (a / 2) (b / 2) * 2 + (a + b) % 2
bit_xor_digit a b =
    omega (arith, bit_xor_step a b, differ_digits (a % 2) (b % 2) (omega arith) (omega arith))

bit_xor-cancel_below : (k a b : ℕ) → a ≤ k → b ≤ k → bit_xor (bit_xor a b) b ≡ a
bit_xor-cancel_below zero zero zero p q = refl
bit_xor-cancel_below zero zero (suc b) p q = absurd (omega arith)
bit_xor-cancel_below zero (suc a) b p q = absurd (omega arith)
bit_xor-cancel_below (suc k) a b p q = omega (
  arith,
  bit_xor_digit (bit_xor a b) b,
  bit_xor_digit a b,
  ap (λ (t : ℕ). bit_xor t (b / 2)) half,
  bit_xor-cancel_below k (a / 2) (b / 2) (omega arith) (omega arith),
)
  where
    half : bit_xor a b / 2 ≡ bit_xor (a / 2) (b / 2)
    half = omega (arith, bit_xor_digit a b)

-- Adding the same bits twice changes nothing.
pub bit_xor-cancel : (a b : ℕ) → bit_xor (bit_xor a b) b ≡ a
bit_xor-cancel a b = bit_xor-cancel_below (a + b) a b (omega arith) (omega arith)

comm_below : (k a b : ℕ) → a ≤ k → b ≤ k → bit_xor a b ≡ bit_xor b a
comm_below zero zero zero p q = refl
comm_below zero zero (suc b) p q = absurd (omega arith)
comm_below zero (suc a) b p q = absurd (omega arith)
comm_below (suc k) a b p q = omega (
  arith,
  bit_xor_digit a b,
  bit_xor_digit b a,
  comm_below k (a / 2) (b / 2) (omega arith) (omega arith),
)

pub bit_xor_comm : (a b : ℕ) → bit_xor a b ≡ bit_xor b a
bit_xor_comm a b = comm_below (a + b) a b (omega arith) (omega arith)

bit_xor_half : (a b : ℕ) → bit_xor a b / 2 ≡ bit_xor (a / 2) (b / 2)
bit_xor_half a b = omega (arith, bit_xor_digit a b)

assoc_below :
    (k a b c : ℕ) → a ≤ k → b ≤ k → c ≤ k → bit_xor (bit_xor a b) c ≡ bit_xor a (bit_xor b c)
assoc_below zero zero zero zero p q r = refl
assoc_below zero (suc a) b c p q r = absurd (omega arith)
assoc_below zero zero (suc b) c p q r = absurd (omega arith)
assoc_below zero zero zero (suc c) p q r = absurd (omega arith)
assoc_below (suc k) a b c p q r = omega (
  arith,
  bit_xor_digit (bit_xor a b) c,
  bit_xor_digit a (bit_xor b c),
  bit_xor_digit a b,
  bit_xor_digit b c,
  ap (λ (t : ℕ). bit_xor t (c / 2)) (bit_xor_half a b),
  ap (λ (t : ℕ). bit_xor (a / 2) t) (bit_xor_half b c),
  assoc_below k (a / 2) (b / 2) (c / 2) (omega arith) (omega arith) (omega arith),
)

pub bit_xor_assoc : (a b c : ℕ) → bit_xor (bit_xor a b) c ≡ bit_xor a (bit_xor b c)
bit_xor_assoc a b c = assoc_below (a + b + c) a b c (omega arith) (omega arith) (omega arith)

pub bit_xor-zero : (a : ℕ) → bit_xor a 0 ≡ a
bit_xor-zero a = bit_xor_comm a 0 ∙ zero_left
  where
    zero_left : bit_xor 0 a ≡ a
    zero_left = bit_xor-bitwise 0 a

pub bit_xor-lt : (k a b : ℕ) → a < 2 ^ k → b < 2 ^ k → bit_xor a b < 2 ^ k
bit_xor-lt zero zero zero p q = omega arith
bit_xor-lt zero zero (suc b) p q = absurd (omega arith)
bit_xor-lt zero (suc a) b p q = absurd (omega arith)
bit_xor-lt (suc k) a b p q = omega (
  arith,
  bit_xor_digit a b,
  pow-suc 2 k,
  bit_xor-lt k (a / 2) (b / 2) (omega (arith, pow-suc 2 k)) (omega (arith, pow-suc 2 k)),
)

masked_out : (few x : ℕ) → x ≤ few → bit_and x 0 ≡ 0
masked_out zero x small =
    let none_left : x ≡ 0 = omega arith in ap (λ (t : ℕ). bit_and t 0) none_left
masked_out (suc few) x small = elim (zero_or_more x) [
  | inl none_left ↦ ap (λ (t : ℕ). bit_and t 0) none_left
  | inr more ↦ omega (arith, bit_and_step x 0, masked_out few (x / 2) (omega arith))
]
  where
    zero_or_more : (n : ℕ) → (n ≡ 0) ⊎ (1 ≤ n)
    zero_or_more zero = inl refl
    zero_or_more (suc n) = inr (omega arith)

pub bit_and-zero : (a : ℕ) → bit_and a 0 ≡ 0
bit_and-zero a = masked_out a a (omega arith)

twice : (q k : ℕ) → q * 2 ^ suc k ≡ 2 * (q * 2 ^ k)
twice q k = omega (arith, ap (λ (t : ℕ). q * t) (pow-suc 2 k))

-- A mask of `k` ones keeps the lowest `k` digits.
pub bit_and_ones : (k q r m : ℕ) → r < 2 ^ k → m + 1 ≡ 2 ^ k → bit_and (q * 2 ^ k + r) m ≡ r
bit_and_ones zero q r m h e = ground (arith, bit_and-zero q)
bit_and_ones (suc k) q r m h e = ground (
  arith,
  bit_and_step (q * 2 ^ suc k + r) m,
  twice q k,
  pow-suc 2 k,
  bit_and_ones k q (r / 2) (m / 2) (omega (arith, pow-suc 2 k)) (omega (arith, pow-suc 2 k)),
)

-- A mask with `k` zeros at its end does not look at the lowest `k` digits.
pub bit_and_high :
    (k q r m : ℕ) → r < 2 ^ k → bit_and (q * 2 ^ k + r) (m * 2 ^ k) ≡ bit_and q m * 2 ^ k
bit_and_high zero q r m h = ground arith
bit_and_high (suc k) q r m h = ground (
  arith,
  bit_and_step (q * 2 ^ suc k + r) (m * 2 ^ suc k),
  twice q k,
  twice m k,
  twice (bit_and q m) k,
  pow-suc 2 k,
  bit_and_high k q (r / 2) m (omega (arith, pow-suc 2 k)),
)

-- Numbers cut at the digit `k` are added part by part.
pub bit_xor_fields :
    (k p q a b : ℕ)
    → a < 2 ^ k
    → b < 2 ^ k
    → bit_xor (p * 2 ^ k + a) (q * 2 ^ k + b) ≡ bit_xor p q * 2 ^ k + bit_xor a b
bit_xor_fields zero p q zero zero ha hb = ground arith
bit_xor_fields zero p q (suc a) b ha hb = absurd (omega arith)
bit_xor_fields zero p q zero (suc b) ha hb = absurd (omega arith)
bit_xor_fields (suc k) p q a b ha hb = ground (
  arith,
  bit_xor_digit (p * 2 ^ suc k + a) (q * 2 ^ suc k + b),
  bit_xor_digit a b,
  twice p k,
  twice q k,
  twice (bit_xor p q) k,
  pow-suc 2 k,
  bit_xor_fields k p q (a / 2) (b / 2) (omega (arith, pow-suc 2 k)) (omega (arith, pow-suc 2 k)),
)

-- The test `p` at each number under a bound, from the top down.
unfoldable pub all_below : ℕ → (ℕ → Bool) → Bool
all_below zero p = true
all_below (suc top) p = all_below top p && p top

pub all_below_sound :
    (bound : ℕ) (p : ℕ → Bool) (i : ℕ) → all_below bound p ≡ true → i < bound → p i ≡ true
unfolding all_below
all_below_sound zero p i every under = absurd (omega arith)
all_below_sound (suc top) p i every under = ground (arith, all_below_sound top p i)
