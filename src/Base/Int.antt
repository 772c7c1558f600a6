-- ===== src/Base/Int.antt =====
-- Signed integers, and Rust's `as` casts between an integer and the words of 8, 16 and 32 bits.
use Prim.Native.Nat.{ℕ, suc, ◌-◌, ◌%◌, ◌^◌, ◌<◌}
use mathlib.Core.Path.{◌≡◌, ap}
use native.Mathlib.Nat.{mod-eq_of_lt}
use native.Mathlib.Omega.{arith}
use rctpower_protocol.Base.Tests.{ltb, if◌then◌else◌}

-- `negsuc n` is -(n + 1).
pub data ℤ : Type 0 where
  pos : ℕ → ℤ
  negsuc : ℕ → ℤ

-- The low `w` bits of an integer in two's complement: `z as u8` is `wrap 8 z`.
abbrev pub wrap : ℕ → ℤ → ℕ
wrap w (pos n) = n % 2 ^ w
wrap w (negsuc n) = 2 ^ w - 1 - n % 2 ^ w

-- The integer that a pattern of `w + 1` bits stands for: `z as i8` is `signed 7 (wrap 8 z)`.
abbrev pub signed : ℕ → ℕ → ℤ
signed w n = if ltb n (2 ^ w) then pos n else negsuc (2 ^ suc w - 1 - n)

-- The integers from -(2 ^ w) up to 2 ^ w - 1.
abbrev pub InSigned : ℕ → ℤ → Type 0
InSigned w (pos n) = n < 2 ^ w
InSigned w (negsuc n) = n < 2 ^ w

-- The integers from 0 up to 2 ^ w - 1.
abbrev pub InUnsigned : ℕ → ℤ → Type 0
InUnsigned w (pos n) = n < 2 ^ w
InUnsigned w (negsuc n) = ⊥

pub signed-wrap_8 : (z : ℤ) → InSigned 7 z → signed 7 (wrap 8 z) ≡ z
signed-wrap_8 z h = ground arith

pub signed-wrap_16 : (z : ℤ) → InSigned 15 z → signed 15 (wrap 16 z) ≡ z
signed-wrap_16 z h = ground arith

pub signed-wrap_32 : (z : ℤ) → InSigned 31 z → signed 31 (wrap 32 z) ≡ z
signed-wrap_32 z h = ground arith

pub wrap_16-lt : (z : ℤ) → wrap 16 z < 2 ^ 16
wrap_16-lt z = ground arith

pub wrap_32-lt : (z : ℤ) → wrap 32 z < 2 ^ 32
wrap_32-lt z = ground arith

pub pos-wrap : (w : ℕ) (z : ℤ) → InUnsigned w z → pos (wrap w z) ≡ z
pos-wrap w (pos n) h = ap pos (mod-eq_of_lt h)
pos-wrap w (negsuc n) h = absurd h
