-- ===== src/Common/Words.antt =====
-- Big-endian words: `to_be_bytes` and `from_be_bytes` of `u16` and `u32`.
use Prim.Native.Nat.{ℕ, ◌+◌, ◌*◌, ◌/◌, ◌%◌, ◌^◌, ◌<◌}
use mathlib.Core.Path.{◌≡◌}
use mathlib.Core.List.{List, [], ◌∷◌}
use native.Mathlib.Omega.{arith}

abbrev pub u16_to_be_bytes : ℕ → List ℕ
u16_to_be_bytes n = (n / 256 % 256) ∷ (n % 256) ∷ []

abbrev pub u16_from_be_bytes : ℕ → ℕ → ℕ
u16_from_be_bytes a b = a * 256 + b

abbrev pub u32_to_be_bytes : ℕ → List ℕ
u32_to_be_bytes n = (n / 2 ^ 24 % 256) ∷ (n / 2 ^ 16 % 256) ∷ (n / 2 ^ 8 % 256) ∷ (n % 256) ∷ []

abbrev pub u32_from_be_bytes : ℕ → ℕ → ℕ → ℕ → ℕ
u32_from_be_bytes a b c d = a * 2 ^ 24 + b * 2 ^ 16 + c * 2 ^ 8 + d

pub u16_from-to_be_bytes : (n : ℕ) → n < 2 ^ 16 → u16_from_be_bytes (n / 256 % 256) (n % 256) ≡ n
u16_from-to_be_bytes n h = omega arith

pub u32_from-to_be_bytes :
    (n : ℕ)
    → n < 2 ^ 32
    → u32_from_be_bytes (n / 2 ^ 24 % 256) (n / 2 ^ 16 % 256) (n / 2 ^ 8 % 256) (n % 256) ≡ n
u32_from-to_be_bytes n h = omega arith
