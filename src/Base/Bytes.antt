-- ===== src/Base/Bytes.antt =====
-- Bytes as numbers below 256, and the big-endian conversions of Rust's integers.
use Prim.Native.Nat.{ℕ, ◌+◌, ◌*◌, ◌/◌, ◌%◌, ◌^◌, ◌<◌}
use Prim.Native.Char.{code}
use Prim.Native.String.{String}
use mathlib.Core.Path.{◌≡◌}
use mathlib.Core.List.{List, [], ◌∷◌}
use native.Mathlib.Omega.{arith}
use rctpower_protocol.Base.Lists.{All}

abbrev pub IsByte : ℕ → Type 0
IsByte b = b < 256

abbrev pub IsBytes : List ℕ → Type 0
IsBytes = All IsByte

-- The bytes of an ASCII text.
abbrev pub codes : String → List ℕ
codes String.[] = []
codes (String.◌∷◌ c s) = code c ∷ codes s

-- `u16::to_be_bytes`, `u32::to_be_bytes`.
abbrev pub u16_to_be : ℕ → List ℕ
u16_to_be v = v / 256 % 256 ∷ v % 256 ∷ []

abbrev pub u32_to_be : ℕ → List ℕ
u32_to_be v = v / 16777216 % 256 ∷ v / 65536 % 256 ∷ v / 256 % 256 ∷ v % 256 ∷ []

-- `u16::from_be_bytes`, `u32::from_be_bytes`.
abbrev pub u16_from_be : ℕ → ℕ → ℕ
u16_from_be a b = a * 256 + b

abbrev pub u32_from_be : ℕ → ℕ → ℕ → ℕ → ℕ
u32_from_be a b c d = a * 16777216 + b * 65536 + c * 256 + d

pub u16_from_be-u16_to_be : (v : ℕ) → v < 65536 → u16_from_be (v / 256 % 256) (v % 256) ≡ v
u16_from_be-u16_to_be v h = omega arith

pub u32_from_be-u32_to_be :
    (v : ℕ)
    → v < 2 ^ 32
    → u32_from_be (v / 16777216 % 256) (v / 65536 % 256) (v / 256 % 256) (v % 256) ≡ v
u32_from_be-u32_to_be v h = omega arith
