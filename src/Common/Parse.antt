-- ===== src/Common/Parse.antt =====
-- `str::parse` of an unsigned integer.
use Prim.Native.Nat.{ℕ, ◌<◌}
use mathlib.Core.Path.{◌≡◌, refl}
use mathlib.Core.Logic.{◌⊎◌, inl, inr}
use mathlib.Core.Bool.{Bool, true, false, ◌&&◌}
use mathlib.Core.Option.{Option, some, none}
use mathlib.Core.List.{List, [], ◌∷◌}
use native.Mathlib.Omega.{arith}
use fetch.Common.Tests.{ltb, lt→ltb, ltb→lt, ◌==◌, ==→eq, Bool-cases, if◌then◌else◌}
use fetch.Common.Lists.{length}
use fetch.Common.Options.{some_inj}
use fetch.Common.Text.{&&-both}
use fetch.Common.Decimal.{
  is_ascii_digit, value_from, to_string, AllDigits, to_string-AllDigits, to_string-cons,
  value-to_string,
}

unfoldable pub all_digits : List ℕ → Bool
all_digits [] = true
all_digits (c ∷ cs) = is_ascii_digit c && all_digits cs

-- Digits that are worth less than the bound.
unfoldable pub digits_below : ℕ → List ℕ → Option ℕ
digits_below bound [] = none
digits_below bound (c ∷ cs) =
    if all_digits (c ∷ cs) && ltb (value_from 0 (c ∷ cs)) bound
    then some (value_from 0 (c ∷ cs))
    else none

-- A sign `+` may stand in front.
unfoldable pub parse_below : ℕ → List ℕ → Option ℕ
unfolding digits_below
parse_below bound [] = none
parse_below bound (c ∷ cs) =
    if c == b'+' then digits_below bound cs else digits_below bound (c ∷ cs)

pub all_digits-AllDigits : (cs : List ℕ) → AllDigits cs → all_digits cs ≡ true
unfolding all_digits
all_digits-AllDigits [] h = refl
all_digits-AllDigits (c ∷ cs) (h, hs) = rw (h, all_digits-AllDigits cs hs) refl

digit-ne-plus : (c : ℕ) → is_ascii_digit c ≡ true → (c == b'+') ≡ false
unfolding is_ascii_digit
digit-ne-plus c h = ground arith

-- A number below the bound is parsed as it is written.
pub parse_below-to_string : (bound n : ℕ) → n < bound → parse_below bound (to_string n) ≡ some n
unfolding parse_below digits_below
parse_below-to_string bound n h =
    let (c, cs, e) = to_string-cons n in
    let digits : AllDigits (to_string n) = to_string-AllDigits n in
    let worth : value_from 0 (to_string n) ≡ n = value-to_string n in
    let some_digits : AllDigits (c ∷ cs) = rw e at digits in
    let value : value_from 0 (c ∷ cs) ≡ n = rw e at worth in
    rw
      (
        e,
        digit-ne-plus c some_digits.0,
        all_digits-AllDigits (c ∷ cs) some_digits,
        value,
        lt→ltb n bound h,
      )
      refl

-- Digits that are worth a number below the bound.
abbrev pub Digits : ℕ → List ℕ → ℕ → Type 0
Digits bound digits n =
    (0 < length digits) × AllDigits digits × (value_from 0 digits ≡ n) × (n < bound)

-- A text of such digits, with a sign or without.
abbrev pub Worth : ℕ → List ℕ → ℕ → Type 0
Worth bound text n =
    (digits : List ℕ) × ((text ≡ digits) ⊎ (text ≡ b'+' ∷ digits)) × Digits bound digits n

all_digits→AllDigits : (cs : List ℕ) → all_digits cs ≡ true → AllDigits cs
unfolding all_digits
all_digits→AllDigits [] h = tt
all_digits→AllDigits (c ∷ cs) h =
    let (p, q) = &&-both (is_ascii_digit c) (all_digits cs) h in (p, all_digits→AllDigits cs q)

digits_below-Digits :
    (bound : ℕ) (cs : List ℕ) {n : ℕ} → digits_below bound cs ≡ some n → Digits bound cs n
unfolding digits_below
digits_below-Digits bound [] h = cc
digits_below-Digits bound (c ∷ cs) {n} h =
    let test : Bool = all_digits (c ∷ cs) && ltb (value_from 0 (c ∷ cs)) bound in
    elim (Bool-cases test) [
      | inr other ↦ let q = rw other at h in cc
      | inl both ↦
          let (all, less) =
            &&-both (all_digits (c ∷ cs)) (ltb (value_from 0 (c ∷ cs)) bound) both in
          let worth : value_from 0 (c ∷ cs) ≡ n = some_inj (rw both at h) in
          let small : value_from 0 (c ∷ cs) < bound = ltb→lt (value_from 0 (c ∷ cs)) bound less in
          (omega arith, all_digits→AllDigits (c ∷ cs) all, worth, rw worth at small)
    ]

-- What is parsed is the worth of the text.
pub parse_below-Worth :
    (bound : ℕ) (cs : List ℕ) {n : ℕ} → parse_below bound cs ≡ some n → Worth bound cs n
unfolding parse_below
parse_below-Worth bound [] h = cc
parse_below-Worth bound (c ∷ cs) h = elim (Bool-cases (c == b'+')) [
  | inl sign ↦
      let p : c ≡ b'+' = ==→eq c b'+' sign in
      (cs, inr (rw p refl), digits_below-Digits bound cs (rw sign at h))
  | inr other ↦ (c ∷ cs, inl refl, digits_below-Digits bound (c ∷ cs) (rw other at h))
]
