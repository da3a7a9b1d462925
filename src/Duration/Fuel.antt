-- ===== src/Duration/Fuel.antt =====
-- src/duration.rs: the loop over the parts of a text has fuel enough.
use fetch.Common.{
  ℕ, zero, suc, ◌+◌, ◌*◌, ◌≤◌, ◌<◌, ◌≡◌, refl, inl, inr, Bool, Bool-cases, true, ◌&&◌, Option,
  Option-cases, none, some, some_inj, and_then-eq-some, List, [], ◌∷◌, length, length-drop,
  is_empty, ◌==◌, if◌then◌else◌, arith,
}
use fetch.Common.Text.{&&-both}
use fetch.Common.Decimal.{take_digits, drop_digits, value_from}
use fetch.Duration.{
  ◌>>=◌, in_u128, checked_div, starts_with, units, first_unit, duration_unit, strip_char,
  fraction_loop, parse_fraction, parse_duration_part, parts_loop,
}

length-drop_digits : (cs : List ℕ) → length (drop_digits cs) ≤ length cs
unfolding drop_digits
length-drop_digits [] = omega arith
length-drop_digits (c ∷ cs) = let rest = length-drop_digits cs in ground arith

length-strip_char :
    (c : ℕ) (value : List ℕ) {rest : List ℕ}
    → strip_char c value ≡ some rest
    → length rest ≤ length value
unfolding strip_char
length-strip_char c [] h = cc
length-strip_char c (v ∷ value) {rest} h = elim (Bool-cases (v == c)) [
  | inl e ↦ let k = rw e at h in rw (← some_inj k) (omega arith)
  | inr e ↦ let k = rw e at h in cc
]

length-starts_with :
    (value unit : List ℕ) → starts_with value unit ≡ true → length unit ≤ length value
unfolding starts_with
length-starts_with value [] h = omega arith
length-starts_with [] (c ∷ cs) h = cc
length-starts_with (v ∷ value) (c ∷ cs) h =
    let (a, b) = &&-both (v == c) _ h in omega (arith, length-starts_with value cs b)

abbrev NotEmpty : List (List ℕ × ℕ) → Type 0
NotEmpty [] = Unit
NotEmpty ((unit, nanos) ∷ others) = (0 < length unit) × NotEmpty others

length-first_unit :
    (all : List (List ℕ × ℕ)) (value : List ℕ) {found : List ℕ × ℕ}
    → NotEmpty all
    → first_unit all value ≡ some found
    → (0 < length found.0) × (length found.0 ≤ length value)
unfolding first_unit
length-first_unit [] value h k = cc
length-first_unit ((unit, nanos) ∷ others) value (h, more) k =
    elim (Bool-cases (starts_with value unit)) [
      | inl e ↦ let f = rw e at k in rw (← some_inj f) (h, length-starts_with value unit e)
      | inr e ↦ let f = rw e at k in length-first_unit others value more f
    ]

length-parse_fraction :
    (no_whole : Bool) (rest : List ℕ) {read : ℕ × ℕ × List ℕ}
    → parse_fraction no_whole rest ≡ some read
    → length read.2 ≤ length rest
unfolding parse_fraction
length-parse_fraction no_whole rest {read} h = go (strip_char b'.' rest) refl h
  where
    go :
        (stripped : Option (List ℕ))
        → strip_char b'.' rest ≡ stripped
        → (elim stripped [
          | none ↦ if no_whole then none else some (0, 1, rest)
          | some after_dot ↦
              if no_whole && is_empty (take_digits after_dot)
              then none
              else (fraction_loop (take_digits after_dot) 0 1 >>= λ read.
                  some (read.0, read.1, drop_digits after_dot))
        ])
          ≡ some read
        → length read.2 ≤ length rest
    go none e k = elim (Bool-cases no_whole) [
      | inl a ↦ let q = rw a at k in cc
      | inr a ↦ let q = rw a at k in rw (← some_inj q) (omega arith)
    ]
    go (some after_dot) e k = elim (Bool-cases (no_whole && is_empty (take_digits after_dot))) [
      | inl a ↦ let q = rw a at k in cc
      | inr a ↦
          let q = rw a at k in
          let (digits, d, last) =
            and_then-eq-some (fraction_loop (take_digits after_dot) 0 1) _ q in
          let shorter = length-strip_char b'.' rest e in
          rw (← some_inj last) (omega (arith, length-drop_digits after_dot))
    ]

-- A part takes at least the letters of its unit.
length-parse_duration_part :
    (value : List ℕ) {read : ℕ × List ℕ}
    → parse_duration_part value ≡ some read
    → length read.1 < length value
unfolding parse_duration_part duration_unit
length-parse_duration_part value h =
    let (whole, a, h1) = and_then-eq-some (in_u128 (value_from 0 (take_digits value))) _ h in
    let (fraction, b, h2) =
      and_then-eq-some (parse_fraction (is_empty (take_digits value)) (drop_digits value)) _ h1 in
    let (unit, c, h3) = and_then-eq-some (duration_unit fraction.2) _ h2 in
    let (wholes, d, h4) = and_then-eq-some (in_u128 (whole * unit.1)) _ h3 in
    let (scaled, e, h5) = and_then-eq-some (in_u128 (fraction.0 * unit.1)) _ h4 in
    let (fractions, f, h6) = and_then-eq-some (checked_div scaled fraction.1) _ h5 in
    let (nanos, g, h7) = and_then-eq-some (in_u128 (wholes + fractions)) _ h6 in
    let (some_unit, within) = length-first_unit units fraction.2 (omega arith) c in
    let digits = length-drop_digits value in
    let rest = length-parse_fraction (is_empty (take_digits value)) (drop_digits value) b in
    rw (← some_inj h7) (omega (arith, length-drop (length unit.0) fraction.2))

-- With as much fuel as there are characters, more fuel changes nothing.
parts_loop-fuel :
    (fuel more : ℕ) (value : List ℕ) (total : ℕ)
    → length value ≤ fuel
    → length value ≤ more
    → parts_loop fuel value total ≡ parts_loop more value total
unfolding parts_loop
parts_loop-fuel zero zero [] total h k = refl
parts_loop-fuel zero (suc more) [] total h k = refl
parts_loop-fuel (suc fuel) zero [] total h k = refl
parts_loop-fuel (suc fuel) (suc more) [] total h k = refl
parts_loop-fuel zero more (c ∷ value) total h k = absurd (omega arith)
parts_loop-fuel (suc fuel) zero (c ∷ value) total h k = absurd (omega arith)
parts_loop-fuel (suc fuel) (suc more) (c ∷ value) total h k =
    go (λ next sum l. parts_loop-fuel fuel more next sum (omega arith) (omega arith))
      (parse_duration_part (c ∷ value)) refl
  where
    go :
        ((next : List ℕ) (sum : ℕ)
          → length next < length (c ∷ value)
          → parts_loop fuel next sum ≡ parts_loop more next sum)
        → (read : Option (ℕ × List ℕ)) → parse_duration_part (c ∷ value) ≡ read
        → (read >>= λ part. in_u128 (total + part.0) >>= λ sum. parts_loop fuel part.1 sum)
          ≡ (read >>= λ part. in_u128 (total + part.0) >>= λ sum. parts_loop more part.1 sum)
    go later none e = refl
    go later (some (nanos, next)) e = elim (Option-cases (in_u128 (total + nanos))) [
      | inl none_left ↦ rw none_left refl
      | inr (sum, s) ↦ rw s (later next sum (length-parse_duration_part (c ∷ value) e))
    ]
