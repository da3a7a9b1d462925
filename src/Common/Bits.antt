-- ===== src/Common/Bits.antt =====
-- The bit operations of the machine words, where the program masks a number or joins two fields.
use Prim.Native.Nat.{
  ℕ, zero, suc, ◌+◌, ◌*◌, ◌/◌, ◌%◌, ◌^◌, ◌≤◌, ◌<◌, max, min, bit_and, bit_and-bitwise, bit_or,
  digits, bit_or-bitwise,
}
use mathlib.Core.Path.{◌≡◌, refl, ap}
use mathlib.Core.Bool.{Bool, true, ◌&&◌}
use native.Mathlib.Omega.{arith}
use native.Mathlib.Nat.{pow-suc}
use fetch.Common.Tests.{◌==◌, ==→eq}

-- Any operation that works digit by digit: how many digits it may look at does not matter, as long
-- as the first number has no more.
module _ (spent : ℕ → ℕ) (digit : ℕ → ℕ → ℕ) where
  digits-eq : (x y p q : ℕ) → x ≤ p → x ≤ q → digits spent digit p x y ≡ digits spent digit q x y
  digits-eq zero y zero zero u v = refl
  digits-eq zero y zero (suc q) u v = refl
  digits-eq zero y (suc p) zero u v = refl
  digits-eq zero y (suc p) (suc q) u v = refl
  digits-eq (suc x) y zero q u v = absurd (omega arith)
  digits-eq (suc x) y (suc p) zero u v = absurd (omega arith)
  digits-eq (suc x) y (suc p) (suc q) u v =
      let halves = digits-eq (suc x / 2) (y / 2) p q (omega arith) (omega arith) in
      ap (λ (t : ℕ). t * 2 + digit (suc x % 2) (y % 2)) halves

  -- The lowest digit, and the others.
  digits_lowest :
      (x y : ℕ)
      → digits spent digit (suc x) (suc x) y
        ≡ digits spent digit (suc x / 2) (suc x / 2) (y / 2) * 2 + digit (suc x % 2) (y % 2)
  digits_lowest x y =
      let halves = digits-eq (suc x / 2) (y / 2) x (suc x / 2) (omega arith) (omega arith) in
      ap (λ (t : ℕ). t * 2 + digit (suc x % 2) (y % 2)) halves

or_lowest : (x y : ℕ) → bit_or x y ≡ bit_or (x / 2) (y / 2) * 2 + max (x % 2) (y % 2)
or_lowest zero y = omega (arith, bit_or-bitwise 0 y, bit_or-bitwise 0 (y / 2))
or_lowest (suc x) y = omega (
  arith,
  digits_lowest (λ rest. rest) max x y,
  bit_or-bitwise (suc x) y,
  bit_or-bitwise (suc x / 2) (y / 2),
)

and_lowest : (x y : ℕ) → bit_and x y ≡ bit_and (x / 2) (y / 2) * 2 + min (x % 2) (y % 2)
and_lowest zero y = omega (arith, bit_and-bitwise 0 y, bit_and-bitwise 0 (y / 2))
and_lowest (suc x) y = omega (
  arith,
  digits_lowest (λ rest. zero) min x y,
  bit_and-bitwise (suc x) y,
  bit_and-bitwise (suc x / 2) (y / 2),
)

-- `|` and `&` with no digits on the right.
or_none : (bound x : ℕ) → x ≤ bound → bit_or x 0 ≡ x
or_none bound zero u = bit_or-bitwise 0 0
or_none zero (suc x) u = absurd (omega arith)
or_none (suc bound) (suc x) u =
    omega (arith, or_none bound (suc x / 2) (omega arith), or_lowest (suc x) 0)

and_none : (bound x : ℕ) → x ≤ bound → bit_and x 0 ≡ 0
and_none bound zero u = bit_and-bitwise 0 0
and_none zero (suc x) u = absurd (omega arith)
and_none (suc bound) (suc x) u =
    omega (arith, and_none bound (suc x / 2) (omega arith), and_lowest (suc x) 0)

-- A field shifted beyond another one: half of it, and its last digit.
shifted_parts : (s x : ℕ) → (x * 2 ^ suc s / 2 ≡ x * 2 ^ s) × (x * 2 ^ suc s % 2 ≡ 0)
shifted_parts s x =
    let d : x * 2 ^ suc s ≡ x * 2 ^ s * 2 = omega (arith, ap (λ (t : ℕ). x * t) (pow-suc 2 s)) in
    (omega arith, omega arith)

-- `|` of a field and one shifted beyond it is their sum.
pub bit_or-shifted : (s v x : ℕ) → v < 2 ^ s → bit_or v (x * 2 ^ s) ≡ v + x * 2 ^ s
bit_or-shifted zero v x h =
    let e : v ≡ 0 = omega arith in rw e (omega (arith, bit_or-bitwise 0 (x * 2 ^ 0)))
bit_or-shifted (suc s) v x h =
    let (half, low) = shifted_parts s x in
    let joined : bit_or (v / 2) (x * 2 ^ suc s / 2) ≡ v / 2 + x * 2 ^ s =
      rw half (bit_or-shifted s (v / 2) x (omega (arith, pow-suc 2 s))) in
    omega (arith, or_lowest v (x * 2 ^ suc s))

pub shifted-bit_or : (s v x : ℕ) → v < 2 ^ s → bit_or (x * 2 ^ s) v ≡ v + x * 2 ^ s
shifted-bit_or zero v x h =
    let e : v ≡ 0 = omega arith in rw e (omega (arith, or_none (x * 2 ^ 0) (x * 2 ^ 0)))
shifted-bit_or (suc s) v x h =
    let (half, low) = shifted_parts s x in
    let joined : bit_or (x * 2 ^ suc s / 2) (v / 2) ≡ v / 2 + x * 2 ^ s =
      rw half (shifted-bit_or s (v / 2) x (omega (arith, pow-suc 2 s))) in
    omega (arith, or_lowest (x * 2 ^ suc s) v)

-- `& 0x07`, of any number.
pub bit_and_low_3 : (x : ℕ) → bit_and x 0x07 ≡ x % 8
bit_and_low_3 x =
    let rest = x / 2 / 2 / 2 in
    omega
      (arith, and_none rest rest, and_lowest (x / 2 / 2) 1, and_lowest (x / 2) 3, and_lowest x 7)

-- The masks of a byte, by a table of all bytes.
unfoldable pub holds_below : ℕ → (ℕ → Bool) → Bool
holds_below zero test = true
holds_below (suc bound) test = test bound && holds_below bound test

pub holds_below-test :
    (bound x : ℕ) (test : ℕ → Bool) → holds_below bound test ≡ true → x < bound → test x ≡ true
unfolding holds_below
holds_below-test zero x test h u = absurd (omega arith)
holds_below-test (suc bound) x test h u = ground (arith, holds_below-test bound x test)

low_7_table : holds_below 256 (λ x. bit_and x 0x7f == x % 128) ≡ true
unfolding holds_below
low_7_table = refl

pub bit_and_low_7 : (x : ℕ) → x < 256 → bit_and x 0x7f ≡ x % 128
bit_and_low_7 x h = ==→eq _ _ (holds_below-test 256 x _ low_7_table h)

high_bit_table : holds_below 256 (λ x. bit_and x 0x80 == x / 128 * 128) ≡ true
unfolding holds_below
high_bit_table = refl

pub bit_and_high_bit : (x : ℕ) → x < 256 → bit_and x 0x80 ≡ x / 128 * 128
bit_and_high_bit x h = ==→eq _ _ (holds_below-test 256 x _ high_bit_table h)

set_high_bit_table : holds_below 256 (λ x. bit_or x 0x80 == x % 128 + 128) ≡ true
unfolding holds_below
set_high_bit_table = refl

pub bit_or_high_bit : (x : ℕ) → x < 256 → bit_or x 0x80 ≡ x % 128 + 128
bit_or_high_bit x h = ==→eq _ _ (holds_below-test 256 x _ set_high_bit_table h)

small_table : holds_below 64 (λ x. bit_and x 0xc0 == 0) ≡ true
unfolding holds_below
small_table = refl

-- A byte below 64 has neither of the two high bits.
pub bit_and_high_2 : (x : ℕ) → x < 64 → bit_and x 0xc0 ≡ 0
bit_and_high_2 x h = ==→eq _ _ (holds_below-test 64 x _ small_table h)
