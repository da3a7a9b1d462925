-- ===== src/Duration/Parts.antt =====
-- src/duration.rs: a part of a written duration is read.
use native.Mathlib.Nat.{pow-suc}
use fetch.Common.{
  ℕ, zero, suc, ◌+◌, ◌-◌, ◌*◌, ◌/◌, ◌^◌, ◌≤◌, ◌<◌, ◌≡◌, refl, ap, ◌∙◌, true, false, some, List, [],
  ◌∷◌, ◌++◌, length, is_empty, drop, ltb, lt→ltb, ltb→lt, leb, leb→le, ◌==◌, arith,
}
use fetch.Common.Text.{&&-both}
use fetch.Common.Bits.{holds_below, holds_below-test}
use fetch.Common.Decimal.{
  take_digits, drop_digits, value_from, to_string, is_ascii_digit, AllDigits, to_string-AllDigits,
  value-to_string, to_string-cons, take_digits-append,
}
use fetch.Duration.{
  in_u128, checked_div, fraction_loop, strip_char, parse_fraction, parse_duration_part,
  duration_unit,
}

pub in_u128-some : (n : ℕ) → n < 2 ^ 128 → in_u128 n ≡ some n
in_u128-some n h = rw (lt→ltb n (2 ^ 128) h) refl

pow_table : holds_below 10 (λ k. leb (10 ^ k) 1000000000) ≡ true
unfolding holds_below
pow_table = refl

pub pow-le : (k : ℕ) → k ≤ 9 → 10 ^ k ≤ 1000000000
pow-le k h = leb→le _ _ (holds_below-test 10 k _ pow_table (omega arith))

low_table : holds_below 10 (λ k. ltb 0 (10 ^ k)) ≡ true
unfolding holds_below
low_table = refl

pub lt-pow : (k : ℕ) → k ≤ 9 → 0 < 10 ^ k
lt-pow k h = ltb→lt _ _ (holds_below-test 10 k _ low_table (omega arith))

digit_range : (d : ℕ) → is_ascii_digit d ≡ true → d - b'0' ≤ 9
unfolding is_ascii_digit
digit_range d h = let (a, b) = &&-both (leb b'0' d) (leb d b'9') h in omega (arith, leb→le d b'9' b)

-- Up to nine digits behind the dot are read without an overflow.
pub fraction_loop-digits :
    (ds : List ℕ) (used n : ℕ)
    → AllDigits ds
    → n < 10 ^ used
    → used + length ds ≤ 9
    → fraction_loop ds n (10 ^ used) ≡ some (value_from n ds, 10 ^ (used + length ds))
unfolding fraction_loop value_from
fraction_loop-digits [] used n a h k = let e : used + 0 ≡ used = omega arith in rw e refl
fraction_loop-digits (d ∷ ds) used n (a, more) h k =
    let b = pow-le used (omega arith) in
    let c = digit_range d a in
    let p = pow-suc 10 used in
    let q : 10 ^ used * 10 ≡ 10 ^ suc used = omega (arith, p) in
    let s : used + suc (length ds) ≡ suc used + length ds = omega arith in
    rw
      (
        in_u128-some (n * 10) (omega arith),
        in_u128-some (n * 10 + (d - b'0')) (omega arith),
        in_u128-some (10 ^ used * 10) (omega arith),
        q,
        s,
      )
      (fraction_loop-digits ds (suc used) (n * 10 + (d - b'0')) more (omega arith) (omega arith))

checked_div-some : (n d : ℕ) → 0 < d → checked_div n d ≡ some (n / d)
checked_div-some n zero h = absurd (omega arith)
checked_div-some n (suc d) h = refl

to_string-is_empty : (n : ℕ) → is_empty (to_string n) ≡ false
to_string-is_empty n = let (c, cs, e) = to_string-cons n in rw e refl

-- A unit: a text that starts with neither a digit nor a dot, and is all that is read as the unit.
pub record IsUnit (unit : List ℕ) (nanos : ℕ) : Type 0 where
  pub first : ℕ
  pub others : List ℕ
  pub shape : unit ≡ first ∷ others
  pub no_digit : is_ascii_digit first ≡ false
  pub no_dot : (first == b'.') ≡ false
  pub known : duration_unit unit ≡ some (unit, nanos)

drop_whole : (xs : List ℕ) → drop (length xs) xs ≡ []
drop_whole [] = refl
drop_whole (x ∷ xs) = drop_whole xs

-- A part, from what its pieces are read as.
parse_duration_part-pieces :
    (value unit : List ℕ) (n fraction scale nanos : ℕ)
    → is_empty (take_digits value) ≡ false
    → value_from 0 (take_digits value) ≡ n
    → parse_fraction false (drop_digits value) ≡ some (fraction, scale, unit)
    → duration_unit unit ≡ some (unit, nanos)
    → 0 < scale
    → n < 2 ^ 64
    → fraction * nanos < 2 ^ 64
    → n * nanos + fraction * nanos / scale < 2 ^ 64
    → parse_duration_part value ≡ some (n * nanos + fraction * nanos / scale, [])
unfolding parse_duration_part
parse_duration_part-pieces value unit n fraction scale nanos whole worth read known s h k l =
    rw (whole, worth, in_u128-some n (omega arith), read, known)
      (rw
        (
          in_u128-some (n * nanos) (omega arith),
          in_u128-some (fraction * nanos) (omega arith),
          checked_div-some (fraction * nanos) scale s,
          in_u128-some (n * nanos + fraction * nanos / scale) (omega arith),
          drop_whole unit,
        )
        refl)

-- A number without a fraction.
pub parse_duration_part-whole :
    (n : ℕ) (unit : List ℕ) (nanos : ℕ)
    → IsUnit unit nanos
    → n < 2 ^ 64
    → n * nanos < 2 ^ 64
    → parse_duration_part (to_string n ++ unit) ≡ some (n * nanos, [])
unfolding parse_fraction strip_char
parse_duration_part-whole n unit nanos u h k =
    let (taken, dropped) =
      take_digits-append (to_string n) u.first u.others (to_string-AllDigits n) u.no_digit in
    let value : List ℕ = to_string n ++ (u.first ∷ u.others) in
    let read : parse_fraction false (drop_digits value) ≡ some (0, 1, u.first ∷ u.others) =
      rw (dropped, parse_fraction, strip_char, u.no_dot) (rw dropped refl) in
    let nothing : n * nanos + 0 * nanos / 1 ≡ n * nanos = omega arith in
    let whole : is_empty (take_digits value) ≡ false = rw taken (to_string-is_empty n) in
    let worth : value_from 0 (take_digits value) ≡ n = rw taken (value-to_string n) in
    rw (u.shape) (
      parse_duration_part-pieces value (u.first ∷ u.others) n 0 1 nanos whole worth read
        (rw (← u.shape) u.known) (omega arith) h (omega arith) (omega arith)
      ∙ ap (λ (t : ℕ). some (t, [])) nothing)

-- A number with up to nine digits behind the dot.
pub parse_duration_part-fraction :
    (n : ℕ) (digits : List ℕ) (unit : List ℕ) (nanos : ℕ)
    → IsUnit unit nanos
    → AllDigits digits
    → length digits ≤ 9
    → n < 2 ^ 64
    → value_from 0 digits * nanos < 2 ^ 64
    → n * nanos + value_from 0 digits * nanos / 10 ^ length digits < 2 ^ 64
    → parse_duration_part (to_string n ++ (b'.' ∷ (digits ++ unit)))
      ≡ some (n * nanos + value_from 0 digits * nanos / 10 ^ length digits, [])
unfolding parse_fraction strip_char is_ascii_digit
parse_duration_part-fraction n digits unit nanos u a d h k l =
    let value : List ℕ = to_string n ++ (b'.' ∷ (digits ++ (u.first ∷ u.others))) in
    let (taken, dropped) =
      take_digits-append (to_string n) b'.' (digits ++ (u.first ∷ u.others)) (to_string-AllDigits n)
        refl in
    let (behind, rest) = take_digits-append digits u.first u.others a u.no_digit in
    let z : 0 + length digits ≡ length digits = omega arith in
    let read : parse_fraction false (drop_digits value)
        ≡ some (value_from 0 digits, 10 ^ length digits, u.first ∷ u.others) =
      rw (dropped, behind, rest, fraction_loop-digits digits 0 0 a (omega arith) (omega arith))
        (rw z refl) in
    let whole : is_empty (take_digits value) ≡ false = rw taken (to_string-is_empty n) in
    let worth : value_from 0 (take_digits value) ≡ n = rw taken (value-to_string n) in
    rw (u.shape) (
      parse_duration_part-pieces value (u.first ∷ u.others) n (value_from 0 digits)
        (10 ^ length digits) nanos whole worth read (rw (← u.shape) u.known)
        (lt-pow (length digits) d) h k l)
