-- ===== src/Duration/Interval.antt =====
-- src/duration.rs: a text of one part is read as an interval.
use fetch.Common.{
  ℕ, ◌+◌, ◌^◌, ◌≤◌, ◌<◌, ◌≡◌, refl, sym, ap, Bool, true, false, not, ◌&&◌, ◌||◌, some, List, [],
  ◌∷◌, ◌++◌, append_assoc, lt→ltb, leb, leb→le, ◌==◌, arith,
}
use fetch.Common.Text.{&&-both}
use fetch.Common.Bits.{holds_below, holds_below-test}
use fetch.Common.Chars.{is_whitespace, trim, trim-append}
use fetch.Common.Decimal.{to_string, is_ascii_digit, AllDigits, to_string-AllDigits, to_string-cons}
use fetch.Duration.{parse_duration_part, parts_loop, behind_sign, parse_duration_interval}
use fetch.Duration.Parts.{in_u128-some}

digit_table :
    holds_below 58 (λ c.
      not (is_ascii_digit c) || (not (is_whitespace c) && (not (c == b'-') && not (c == b'+'))))
    ≡ true
unfolding holds_below is_ascii_digit is_whitespace
digit_table = refl

not-true : (b : Bool) → not b ≡ true → b ≡ false
not-true false h = refl
not-true true h = cc

digit_bounds : (c : ℕ) → is_ascii_digit c ≡ true → (b'0' ≤ c) × (c ≤ b'9')
unfolding is_ascii_digit
digit_bounds c h =
    let (a, b) = &&-both (leb b'0' c) (leb c b'9') h in (leb→le b'0' c a, leb→le c b'9' b)

-- A digit is no space and no sign.
digit_other :
    (c : ℕ)
    → is_ascii_digit c ≡ true
    → (is_whitespace c ≡ false) × ((c == b'-') ≡ false) × ((c == b'+') ≡ false)
digit_other c h =
    let (low, high) = digit_bounds c h in
    let t = rw (h) at (holds_below-test 58 c _ digit_table (omega arith)) in
    let (a, b) = &&-both (not (is_whitespace c)) _ t in
    let (d, e) = &&-both (not (c == b'-')) _ b in (not-true _ a, not-true _ d, not-true _ e)

interval_of_part :
    (c : ℕ) (cs : List ℕ) (nanos : ℕ)
    → is_ascii_digit c ≡ true
    → trim (c ∷ cs) ≡ c ∷ cs
    → parse_duration_part (c ∷ cs) ≡ some (nanos, [])
    → nanos < 2 ^ 64
    → parse_duration_interval (c ∷ cs) ≡ some nanos
unfolding parse_duration_interval behind_sign parts_loop
interval_of_part c cs nanos digit trimmed read h =
    let (space, minus, plus) = digit_other c digit in
    rw (trimmed, minus, plus, read, in_u128-some (0 + nanos) (omega arith))
      (let e : 0 + nanos ≡ nanos = omega arith in rw (e, lt→ltb nanos (2 ^ 64) h) refl)

-- A text of one part that starts with a digit and ends with the letter of its unit.
pub parse_duration_interval-part :
    (n : ℕ) (middle : List ℕ) (nanos : ℕ)
    → parse_duration_part (to_string n ++ (middle ++ b's' ∷ [])) ≡ some (nanos, [])
    → nanos < 2 ^ 64
    → parse_duration_interval (to_string n ++ (middle ++ b's' ∷ [])) ≡ some nanos
unfolding is_whitespace
parse_duration_interval-part n middle nanos read h =
    let (c, cs, e) = to_string-cons n in
    let digits : AllDigits (c ∷ cs) = rw e at (to_string-AllDigits n) in
    let shape : to_string n ++ (middle ++ b's' ∷ []) ≡ c ∷ ((cs ++ middle) ++ b's' ∷ []) =
      rw e (ap (◌∷◌ c) (sym (append_assoc cs middle (b's' ∷ [])))) in
    let (space, minus, plus) = digit_other c digits.0 in
    rw shape (
      interval_of_part c ((cs ++ middle) ++ b's' ∷ []) nanos digits.0
        (trim-append c (cs ++ middle) b's' space refl) (rw shape at read) h)
