-- ===== src/Duration.antt =====
-- src/duration.rs: how durations are written and read. A text is the list of its code points.
mod Parts
mod Interval
mod Fuel
pub mod RoundTrip
mod Tests
use fetch.Common.{
  ℕ, zero, suc, ◌+◌, ◌-◌, ◌*◌, ◌/◌, ◌%◌, ◌^◌, Bool, true, false, not, ◌&&◌, ◌||◌, Option, none,
  some, List, [], ◌∷◌, ◌++◌, length, is_empty, drop, ltb, ◌==◌, if◌then◌else◌, and_then,
}
use fetch.Common.Text.{codes, bytes_eq}
use fetch.Common.Chars.{trim}
use fetch.Common.Decimal.{take_digits, drop_digits, value_from, to_string, padded, trim_end_zeros}

-- A duration is the number of its nanoseconds.
abbrev pub nanos_per_micro : ℕ
nanos_per_micro = 1000

abbrev pub nanos_per_milli : ℕ
nanos_per_milli = 1000000

abbrev pub nanos_per_second : ℕ
nanos_per_second = 1000000000

abbrev pub nanos_per_minute : ℕ
nanos_per_minute = 60 * nanos_per_second

abbrev pub nanos_per_hour : ℕ
nanos_per_hour = 60 * nanos_per_minute

abbrev pub nanos_per_day : ℕ
nanos_per_day = 24 * nanos_per_hour

-- `?` on an `Option`.
infixl 5 ◌>>=◌
abbrev pub ◌>>=◌ : {A B : Type 0} → Option A → (A → Option B) → Option B
o >>= rest = and_then o rest

-- The `checked` operations of `u128`.
abbrev pub in_u128 : ℕ → Option ℕ
in_u128 n = if ltb n (2 ^ 128) then some n else none

abbrev pub checked_div : ℕ → ℕ → Option ℕ
checked_div n zero = none
checked_div n (suc d) = some (n / suc d)

-- The digits behind the dot of a unit.
pub precision : List ℕ → ℕ
precision suffix =
    if bytes_eq suffix (codes "us") then 3 else if bytes_eq suffix (codes "ms") then 6 else 9

pub format_duration_unit : ℕ → ℕ → List ℕ → List ℕ
format_duration_unit nanos unit_nanos suffix =
    let whole = nanos / unit_nanos in
    let remainder = nanos % unit_nanos in
    let digits = precision suffix in
    let fraction = padded digits (remainder * 10 ^ digits / unit_nanos) in
    if remainder == 0
    then to_string whole ++ suffix
    else to_string whole ++ (b'.' ∷ (trim_end_zeros fraction ++ suffix))

pub format_go_duration : ℕ → List ℕ
format_go_duration nanos =
    if ltb nanos 1000
    then to_string nanos ++ codes "ns"
    else if ltb nanos 1000000
    then format_duration_unit nanos 1000 (codes "us")
    else if ltb nanos 1000000000
    then format_duration_unit nanos 1000000 (codes "ms")
    else format_duration_unit nanos 1000000000 (codes "s")

pub starts_with : List ℕ → List ℕ → Bool
starts_with value [] = true
starts_with [] (c ∷ cs) = false
starts_with (v ∷ value) (c ∷ cs) = v == c && starts_with value cs

abbrev pub units : List (List ℕ × ℕ)
units =
    (codes "ms", nanos_per_milli)
    ∷ ((codes "us", nanos_per_micro)
        ∷ ((0xb5 ∷ b's' ∷ [], nanos_per_micro)
            ∷ ((0x3bc ∷ b's' ∷ [], nanos_per_micro)
                ∷ ((codes "ns", 1)
                    ∷ ((codes "d", nanos_per_day)
                        ∷ ((codes "h", nanos_per_hour)
                            ∷ ((codes "m", nanos_per_minute)
                                ∷ ((codes "s", nanos_per_second) ∷ []))))))))

pub first_unit : List (List ℕ × ℕ) → List ℕ → Option (List ℕ × ℕ)
first_unit [] value = none
first_unit ((unit, nanos) ∷ others) value =
    if starts_with value unit then some (unit, nanos) else first_unit others value

pub duration_unit : List ℕ → Option (List ℕ × ℕ)
duration_unit value = first_unit units value

-- The digits behind the dot, as `fraction` and `scale`.
pub fraction_loop : List ℕ → ℕ → ℕ → Option (ℕ × ℕ)
fraction_loop [] fraction scale = some (fraction, scale)
fraction_loop (byte ∷ bytes) fraction scale = do
  shifted ← in_u128 (fraction * 10)
  next ← in_u128 (shifted + (byte - b'0'))
  next_scale ← in_u128 (scale * 10)
  fraction_loop bytes next next_scale

-- `strip_prefix` of a character.
pub strip_char : ℕ → List ℕ → Option (List ℕ)
strip_char c [] = none
strip_char c (v ∷ value) = if v == c then some value else none

-- The fraction, its scale and what is behind it, where no digits may stand before it.
pub parse_fraction : Bool → List ℕ → Option (ℕ × ℕ × List ℕ)
parse_fraction no_whole rest = elim (strip_char b'.' rest) [
  | none ↦ if no_whole then none else some (0, 1, rest)
  | some after_dot ↦
      if no_whole && is_empty (take_digits after_dot)
      then none
      else (fraction_loop (take_digits after_dot) 0 1 >>= λ read.
          some (read.0, read.1, drop_digits after_dot))
]

pub parse_duration_part : List ℕ → Option (ℕ × List ℕ)
parse_duration_part value = do
  whole ← in_u128 (value_from 0 (take_digits value))
  (fraction, scale, rest) ← parse_fraction (is_empty (take_digits value)) (drop_digits value)
  (unit, multiplier) ← duration_unit rest
  wholes ← in_u128 (whole * multiplier)
  scaled ← in_u128 (fraction * multiplier)
  fractions ← checked_div scaled scale
  nanos ← in_u128 (wholes + fractions)
  some (nanos, drop (length unit) rest)

-- Each part takes a character, so the length of the text is fuel enough (Fuel.antt).
pub parts_loop : ℕ → List ℕ → ℕ → Option ℕ
parts_loop fuel [] total = some total
parts_loop zero (c ∷ rest) total = none
parts_loop (suc fuel) (c ∷ rest) total = do
  (nanos, next) ← parse_duration_part (c ∷ rest)
  sum ← in_u128 (total + nanos)
  parts_loop fuel next sum

-- What is behind a sign that may be there.
pub behind_sign : List ℕ → Option (List ℕ)
behind_sign [] = none
behind_sign (c ∷ rest) =
    if c == b'-'
    then none
    else if c == b'+'
    then if is_empty rest then none else some rest
    else some (c ∷ rest)

pub parse_duration_interval : List ℕ → Option ℕ
parse_duration_interval value = do
  rest ← behind_sign (trim value)
  total ← parts_loop (length rest) rest 0
  if ltb total (2 ^ 64) then some total else none
