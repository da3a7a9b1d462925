-- ===== src/Duration/RoundTrip.antt =====
-- src/duration.rs: a written duration is read back.
use native.Mathlib.Nat.{mul-div_cancel, mul-le-mul, mul-le-mul_left, pow-suc, div-add-mod', mod-lt}
use fetch.Common.{
  ℕ, zero, suc, ◌+◌, ◌*◌, ◌/◌, ◌%◌, ◌^◌, ◌≤◌, ◌<◌, ◌≡◌, refl, sym, ap, ◌∙◌, inl, inr, Bool-cases,
  some, List, [], ◌∷◌, ◌++◌, append_assoc, length, ltb, ◌==◌, ==→eq, arith,
}
use fetch.Common.Text.{codes, bytes_eq}
use fetch.Common.Decimal.{
  value_from, to_string, is_ascii_digit, AllDigits, padded, padded-AllDigits, length-padded,
  value-padded, trim_end_zeros, trim_end_zeros-Trimmed,
}
use fetch.Duration.{
  precision, format_duration_unit, format_go_duration, duration_unit, first_unit, starts_with,
  parse_duration_interval,
}
use fetch.Duration.Parts.{
  pow-le, lt-pow, IsUnit, parse_duration_part-whole, parse_duration_part-fraction,
}
use fetch.Duration.Interval.{parse_duration_interval-part}

pow_split : (a b : ℕ) → 10 ^ (a + b) ≡ 10 ^ a * 10 ^ b
pow_split a zero = let e : a + 0 ≡ a = omega arith in rw e (omega arith)
pow_split a (suc b) =
    let e : a + suc b ≡ suc (a + b) = omega arith in
    rw (e, pow-suc 10 (a + b), pow-suc 10 b, pow_split a b) (omega arith)

-- What the digits of a remainder are worth in its unit.
abbrev Fraction : ℕ → ℕ → List ℕ → Type 0
Fraction places remainder digits =
    AllDigits digits
    × (length digits ≤ 9)
    × (value_from 0 digits * 10 ^ places ≡ remainder * 10 ^ length digits)

Fraction-digits :
    (places remainder : ℕ)
    → places ≤ 9
    → remainder < 10 ^ places
    → Fraction places remainder (trim_end_zeros (padded places remainder))
Fraction-digits places remainder p h =
    let digits : List ℕ = trim_end_zeros (padded places remainder) in
    let t = trim_end_zeros-Trimmed (padded places remainder) (padded-AllDigits places remainder) in
    let size : places ≡ length digits + t.zeros = sym (length-padded places remainder) ∙ t.size in
    let worth : remainder ≡ value_from 0 digits * 10 ^ t.zeros =
      sym (value-padded places remainder h) ∙ t.worth 0 in
    let split : 10 ^ places ≡ 10 ^ length digits * 10 ^ t.zeros =
      ap (λ (k : ℕ). 10 ^ k) size ∙ pow_split (length digits) t.zeros in
    (
      t.digits,
      omega arith,
      scaled (value_from 0 digits) (10 ^ length digits) (10 ^ t.zeros) split worth,
    )
  where
    scaled : (v l z : ℕ) → 10 ^ places ≡ l * z → remainder ≡ v * z → v * 10 ^ places ≡ remainder * l
    scaled v l z e f = rw (e, f) (omega arith)

-- The suffix of a unit: its letters before the last, which is an s.
record Suffix (before : List ℕ) (unit_nanos : ℕ) : Type 0 where
  places : ℕ
  few : places ≤ 9
  precise : precision (before ++ b's' ∷ []) ≡ places
  power : unit_nanos ≡ 10 ^ places
  unit : IsUnit (before ++ b's' ∷ []) unit_nanos

read_whole :
    (nanos unit_nanos : ℕ) (before : List ℕ)
    → IsUnit (before ++ b's' ∷ []) unit_nanos
    → nanos * unit_nanos < 2 ^ 64
    → nanos < 2 ^ 64
    → parse_duration_interval (to_string nanos ++ (before ++ b's' ∷ [])) ≡ some (nanos * unit_nanos)
read_whole nanos unit_nanos before u h k =
    parse_duration_interval-part nanos before (nanos * unit_nanos)
      (parse_duration_part-whole nanos (before ++ b's' ∷ []) unit_nanos u k h) h

read-Fraction :
    (whole remainder unit_nanos : ℕ) (before digits : List ℕ) (s : Suffix before unit_nanos)
    → Fraction s.places remainder digits
    → remainder < unit_nanos
    → whole < 2 ^ 64
    → whole * unit_nanos + remainder < 2 ^ 64
    → parse_duration_interval (to_string whole ++ (b'.' ∷ (digits ++ (before ++ b's' ∷ []))))
      ≡ some (whole * unit_nanos + remainder)
read-Fraction whole remainder unit_nanos before digits s (a, len, worth) r w h =
    let power = s.power in
    let small = pow-le s.places s.few in
    let large = pow-le (length digits) len in
    let scaled : value_from 0 digits * unit_nanos ≡ remainder * 10 ^ length digits =
      ap (λ (u : ℕ). value_from 0 digits * u) power ∙ worth in
    let product : remainder * 10 ^ length digits ≤ 1000000000 * 1000000000 =
      let low : remainder ≤ 1000000000 = omega arith in mul-le-mul low large in
    let divided : value_from 0 digits * unit_nanos / 10 ^ length digits ≡ remainder =
      ap (λ (v : ℕ). v / 10 ^ length digits) scaled
      ∙ mul-div_cancel remainder (lt-pow (length digits) len) in
    let sum : whole * unit_nanos + value_from 0 digits * unit_nanos / 10 ^ length digits
        ≡ whole * unit_nanos + remainder =
      ap (λ (v : ℕ). whole * unit_nanos + v) divided in
    let part = rw sum at (
      parse_duration_part-fraction whole digits (before ++ b's' ∷ []) unit_nanos s.unit a len w
        (omega arith) (rw (← sum) at h)) in
    let shape : digits ++ (before ++ b's' ∷ []) ≡ (digits ++ before) ++ b's' ∷ [] =
      sym (append_assoc digits before (b's' ∷ [])) in
    rw shape (
      parse_duration_interval-part whole (b'.' ∷ (digits ++ before))
        (whole * unit_nanos + remainder) (rw shape at part) h)

format_duration_unit-read :
    (nanos unit_nanos : ℕ) (before : List ℕ)
    → Suffix before unit_nanos
    → nanos < 2 ^ 64
    → parse_duration_interval (format_duration_unit nanos unit_nanos (before ++ b's' ∷ []))
      ≡ some nanos
unfolding format_duration_unit
format_duration_unit-read nanos unit_nanos before s h =
    let whole : ℕ = nanos / unit_nanos in
    let remainder : ℕ = nanos % unit_nanos in
    let positive : 0 < unit_nanos = rw s.power (lt-pow s.places s.few) in
    let parts : whole * unit_nanos + remainder ≡ nanos = div-add-mod' nanos unit_nanos in
    let low : remainder < unit_nanos = mod-lt nanos positive in
    let most : whole * 1 ≤ whole * unit_nanos = mul-le-mul_left whole positive in
    elim (Bool-cases (remainder == 0)) [
      | inl even ↦
          let e = ==→eq remainder 0 even in
          rw even (
            read_whole whole unit_nanos before s.unit (omega arith) (omega arith)
            ∙ ap (λ (t : ℕ). some t) (omega arith))
      | inr odd ↦
          let inner : remainder * 10 ^ s.places / unit_nanos ≡ remainder =
            ap (λ (t : ℕ). remainder * 10 ^ s.places / t) s.power
            ∙ mul-div_cancel remainder (lt-pow s.places s.few) in
          rw (odd, s.precise, inner)
            (read-Fraction whole remainder unit_nanos before
                (trim_end_zeros (padded s.places remainder)) s
                (Fraction-digits s.places remainder s.few (rw (← s.power) low)) low (omega arith)
                (omega arith)
              ∙ ap (λ (t : ℕ). some t) parts)
    ]

micros : Suffix (codes "u") 1000
unfolding precision bytes_eq is_ascii_digit duration_unit first_unit starts_with
micros = record {
  places = 3;
  few = omega arith;
  precise = refl;
  power = refl;
  unit = record {
    first = b'u';
    others = codes "s";
    shape = refl;
    no_digit = refl;
    no_dot = refl;
    known = refl;
  };
}

millis : Suffix (codes "m") 1000000
unfolding precision bytes_eq is_ascii_digit duration_unit first_unit starts_with
millis = record {
  places = 6;
  few = omega arith;
  precise = refl;
  power = refl;
  unit = record {
    first = b'm';
    others = codes "s";
    shape = refl;
    no_digit = refl;
    no_dot = refl;
    known = refl;
  };
}

seconds : Suffix [] 1000000000
unfolding precision bytes_eq is_ascii_digit duration_unit first_unit starts_with
seconds = record {
  places = 9;
  few = omega arith;
  precise = refl;
  power = refl;
  unit = record {
    first = b's';
    others = [];
    shape = refl;
    no_digit = refl;
    no_dot = refl;
    known = refl;
  };
}

nanos-IsUnit : IsUnit (codes "ns") 1
unfolding is_ascii_digit duration_unit first_unit starts_with
nanos-IsUnit = record {
  first = b'n';
  others = codes "s";
  shape = refl;
  no_digit = refl;
  no_dot = refl;
  known = refl;
}

-- A duration of less than 2^64 nanoseconds is read back from what is written for it, exactly.
pub parse_duration_interval-format_go_duration :
    (nanos : ℕ) → nanos < 2 ^ 64 → parse_duration_interval (format_go_duration nanos) ≡ some nanos
unfolding format_go_duration
parse_duration_interval-format_go_duration nanos h = elim (Bool-cases (ltb nanos 1000)) [
  | inl a ↦ rw a (
      read_whole nanos 1 (codes "n") nanos-IsUnit (omega arith) h
      ∙ ap (λ (t : ℕ). some t) (omega arith))
  | inr a ↦ rw a (elim (Bool-cases (ltb nanos 1000000)) [
    | inl b ↦ rw b (format_duration_unit-read nanos 1000 (codes "u") micros h)
    | inr b ↦ rw b (elim (Bool-cases (ltb nanos 1000000000)) [
      | inl c ↦ rw c (format_duration_unit-read nanos 1000000 (codes "m") millis h)
      | inr c ↦ rw c (format_duration_unit-read nanos 1000000000 [] seconds h)
    ])
  ])
]
