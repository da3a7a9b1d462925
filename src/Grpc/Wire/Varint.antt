-- ===== src/Grpc/Wire/Varint.antt =====
-- src/grpc/reflection.rs: `append_varint` against `read_varint`.
use Prim.Native.Nat.{bit_and, bit_or}
use native.Mathlib.Nat.{pow-suc, mul-le-mul_right}
use native.Mathlib.Numerals.{towards_suc}
use native.Mathlib.Decide.{dec_lt}
use fetch.Common.{
  ℕ, zero, suc, ◌+◌, ◌*◌, ◌/◌, ◌%◌, ◌^◌, ◌≤◌, ◌<◌, ◌≡◌, ap, some, List, [], ◌∷◌, ◌++◌, Bytes,
  lt→ltb, le→ltb, length, ok, arith,
}
use fetch.Common.Bits.{bit_or-shifted, bit_and_low_7, bit_and_high_bit, bit_or_high_bit}
use fetch.Grpc.Wire.{varint_bytes, append_varint, shifts, read_varint_from, read_varint}

-- One byte that ends a number, and one that does not.
read_last :
    (s v value : ℕ) (more : List ℕ) (rest : Bytes)
    → v < 128
    → value < 2 ^ s
    → v * 2 ^ s < 2 ^ 64
    → read_varint_from (s ∷ more) value (v % 256 ∷ rest) ≡ ok (value + v * 2 ^ s, rest)
unfolding read_varint_from
read_last s v value more rest h k w =
    let b : v % 256 ≡ v = omega arith in
    let l : bit_and v 0x7f ≡ v = omega (arith, bit_and_low_7 v (omega arith)) in
    let t : bit_and v 0x80 ≡ 0 = omega (arith, bit_and_high_bit v (omega arith)) in
    let m : v * 2 ^ s % 2 ^ 64 ≡ v * 2 ^ s = omega arith in
    rw (b, l, t, m, bit_or-shifted s value v k)

read_more :
    (s v value : ℕ) (more : List ℕ) (rest : Bytes)
    → value < 2 ^ s
    → v % 128 * 2 ^ s < 2 ^ 64
    → read_varint_from (s ∷ more) value (bit_or (v % 256) 0x80 ∷ rest)
      ≡ read_varint_from more (value + v % 128 * 2 ^ s) rest
unfolding read_varint_from
read_more s v value more rest k w =
    let b : bit_or (v % 256) 0x80 ≡ v % 128 + 128 =
      omega (arith, bit_or_high_bit (v % 256) (omega arith)) in
    let l : bit_and (v % 128 + 128) 0x7f ≡ v % 128 =
      omega (arith, bit_and_low_7 (v % 128 + 128) (omega arith)) in
    let t : bit_and (v % 128 + 128) 0x80 ≡ 128 =
      omega (arith, bit_and_high_bit (v % 128 + 128) (omega arith)) in
    let m : v % 128 * 2 ^ s % 2 ^ 64 ≡ v % 128 * 2 ^ s = omega arith in
    rw (b, l, t, m, bit_or-shifted s value (v % 128) k)

varint_last : (fuel v : ℕ) → v < 128 → varint_bytes (suc fuel) v ≡ some (v % 256 ∷ [])
unfolding varint_bytes
varint_last fuel v h = rw (lt→ltb v 0x80 h)

varint_more :
    (fuel v : ℕ) (bytes : Bytes)
    → 128 ≤ v
    → varint_bytes fuel (v / 2 ^ 7) ≡ some bytes
    → varint_bytes (suc fuel) v ≡ some (bit_or (v % 256) 0x80 ∷ bytes)
unfolding varint_bytes
varint_more fuel v bytes h e = rw (le→ltb v 0x80 h, e)

-- Seven bits of the value are moved into the sum.
low_group : (v s : ℕ) → v % 128 * 2 ^ s + v / 2 ^ 7 * 2 ^ (s + 7) ≡ v * 2 ^ s
low_group v s =
    let p : 2 ^ (s + 7) ≡ 128 * 2 ^ s = simp towards_suc (omega arith) in
    let q : v ≡ v / 2 ^ 7 * 128 + v % 128 = omega arith in
    let r : v * 2 ^ s ≡ (v / 2 ^ 7 * 128 + v % 128) * 2 ^ s = ap (λ (t : ℕ). t * 2 ^ s) q in
    let t : v / 2 ^ 7 * 2 ^ (s + 7) ≡ v / 2 ^ 7 * (128 * 2 ^ s) = ap (λ (t : ℕ). v / 2 ^ 7 * t) p in
    omega arith

next_value : (v s value : ℕ) → value < 2 ^ s → value + v % 128 * 2 ^ s < 2 ^ (s + 7)
next_value v s value h =
    let p : 2 ^ (s + 7) ≡ 128 * 2 ^ s = simp towards_suc (omega arith) in
    let q : v % 128 * 2 ^ s ≤ 127 * 2 ^ s = mul-le-mul_right (2 ^ s) (omega arith) in omega arith

-- What the rounds left read of what the rounds left wrote.
read-varint_bytes :
    (k s v value : ℕ)
    → v < 128 ^ suc k
    → value < 2 ^ s
    → v * 2 ^ s < 2 ^ 64
    → (bytes : Bytes) × (varint_bytes (suc k) v ≡ some bytes)
      × (0 < length bytes)
      × (length bytes ≤ suc k)
      × ((rest : Bytes)
          → read_varint_from (shifts (suc k) s) value (bytes ++ rest)
            ≡ ok (value + v * 2 ^ s, rest))
read-varint_bytes zero s v value h a w = (
  v % 256 ∷ [],
  varint_last 0 v (omega arith),
  omega arith,
  omega arith,
  λ rest. read_last s v value [] rest (omega arith) a w,
)
read-varint_bytes (suc k) s v value h a w = elim (dec_lt v 128) [
  | yes last ↦ (
    v % 256 ∷ [],
    varint_last (suc k) v last,
    omega arith,
    omega arith,
    λ rest. read_last s v value (shifts (suc k) (s + 7)) rest last a w,
  )
  | no more ↦
      let g = low_group v s in
      let (bytes, written, nonempty, short, back) =
        read-varint_bytes k (s + 7) (v / 2 ^ 7) (value + v % 128 * 2 ^ s)
          (omega (arith, pow-suc 128 (suc k))) (next_value v s value a) (omega arith) in
      let sum : value + v % 128 * 2 ^ s + v / 2 ^ 7 * 2 ^ (s + 7) ≡ value + v * 2 ^ s =
        omega arith in
      (
        bit_or (v % 256) 0x80 ∷ bytes,
        varint_more (suc k) v bytes (omega arith) written,
        omega arith,
        omega arith,
        λ rest. rw (
          read_more s v value (shifts (suc k) (s + 7)) (bytes ++ rest) a (omega arith),
          back rest,
          sum,
        ),
      )
]

-- Every `u64` is written, in ten bytes at most that do not depend on what was written before, and is
-- read back from the front of whatever follows.
pub read_varint-append_varint :
    (v : ℕ)
    → v < 2 ^ 64
    → (bytes : Bytes) × ((out : Bytes) → append_varint out v ≡ some (out ++ bytes))
      × (0 < length bytes)
      × (length bytes ≤ 10)
      × ((rest : Bytes) → read_varint (bytes ++ rest) ≡ ok (v, rest))
unfolding append_varint read_varint
read_varint-append_varint v h =
    let (bytes, written, nonempty, short, back) =
      read-varint_bytes 9 0 v 0 (omega arith) (omega arith) (omega arith) in
    let sum : 0 + v * 2 ^ 0 ≡ v = omega arith in
    (bytes, λ out. rw (written, append_varint), nonempty, short, λ rest. rw sum at (back rest))
