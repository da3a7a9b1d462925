-- ===== src/Common/Decimal.antt =====
-- Decimal numbers as texts: how they are written, and what digits are worth.
use Prim.Native.Nat.{ℕ, zero, suc, ◌+◌, ◌-◌, ◌*◌, ◌/◌, ◌%◌, ◌^◌, ◌<◌}
use mathlib.Core.Path.{◌≡◌, refl, ◌∙◌}
use mathlib.Core.Logic.{inl, inr}
use mathlib.Core.Bool.{Bool, true, false, ◌&&◌}
use mathlib.Core.List.{List, [], ◌∷◌, ◌++◌}
use native.Mathlib.Nat.{pow-suc}
use native.Mathlib.Omega.{arith}
use fetch.Common.Tests.{ltb, ltb→lt, ltb→le, leb, le→leb, ◌==◌, ==→eq, if◌then◌else◌, Bool-cases}
use fetch.Common.Lists.{length, length-append, is_empty}

unfoldable pub is_ascii_digit : ℕ → Bool
is_ascii_digit c = leb b'0' c && leb c b'9'

-- `take_while` of the digits, and what is behind.
unfoldable pub take_digits : List ℕ → List ℕ
take_digits [] = []
take_digits (c ∷ cs) = let rest = take_digits cs in if is_ascii_digit c then c ∷ rest else []

unfoldable pub drop_digits : List ℕ → List ℕ
drop_digits [] = []
drop_digits (c ∷ cs) = let rest = drop_digits cs in if is_ascii_digit c then rest else c ∷ cs

-- What digits behind a number make of it.
unfoldable pub value_from : ℕ → List ℕ → ℕ
value_from n [] = n
value_from n (c ∷ cs) = value_from (n * 10 + (c - b'0')) cs

-- `Display` of an unsigned integer, and `{:0width$}` of one that has no more digits. A number has no
-- more digits than its value and one.
unfoldable pub digits_within : ℕ → ℕ → List ℕ
digits_within zero n = []
digits_within (suc fuel) n =
    let rest = digits_within fuel (n / 10) in
    if ltb n 10 then (b'0' + n) ∷ [] else rest ++ (b'0' + n % 10) ∷ []

unfoldable pub to_string : ℕ → List ℕ
unfolding digits_within
to_string n = digits_within (suc n) n

unfoldable pub padded : ℕ → ℕ → List ℕ
padded zero n = []
padded (suc width) n = padded width (n / 10) ++ (b'0' + n % 10) ∷ []

-- `trim_end_matches('0')`
unfoldable pub trim_end_zeros : List ℕ → List ℕ
trim_end_zeros [] = []
trim_end_zeros (c ∷ cs) =
    let rest = trim_end_zeros cs in if is_empty rest && (c == b'0') then [] else c ∷ rest

abbrev pub AllDigits : List ℕ → Type 0
AllDigits [] = Unit
AllDigits (c ∷ cs) = (is_ascii_digit c ≡ true) × AllDigits cs

AllDigits-append : (xs : List ℕ) (d : ℕ) → AllDigits xs → d < 10 → AllDigits (xs ++ (b'0' + d) ∷ [])
unfolding is_ascii_digit
AllDigits-append [] d h u =
    (rw (le→leb 48 (48 + d) (omega arith), le→leb (48 + d) 57 (omega arith)) refl, tt)
AllDigits-append (x ∷ xs) d h u = (h.0, AllDigits-append xs d h.1 u)

pub value_from-append :
    (xs : List ℕ) (n d : ℕ) → value_from n (xs ++ (b'0' + d) ∷ []) ≡ value_from n xs * 10 + d
unfolding value_from
value_from-append [] n d = omega arith
value_from-append (x ∷ xs) n d = value_from-append xs (n * 10 + (x - 48)) d

digits_within-AllDigits : (fuel n : ℕ) → AllDigits (digits_within fuel n)
unfolding digits_within
digits_within-AllDigits zero n = tt
digits_within-AllDigits (suc fuel) n = elim (Bool-cases (ltb n 10)) [
  | inl small ↦ rw small (AllDigits-append [] n tt (ltb→lt n 10 small))
  | inr large ↦
      rw large (AllDigits-append _ (n % 10) (digits_within-AllDigits fuel (n / 10)) (omega arith))
]

value-digits_within : (fuel n : ℕ) → n < fuel → value_from 0 (digits_within fuel n) ≡ n
unfolding digits_within value_from
value-digits_within zero n h = absurd (omega arith)
value-digits_within (suc fuel) n h = elim (Bool-cases (ltb n 10)) [
  | inl small ↦ rw small (value_from-append [] 0 n ∙ value_from-zero n)
  | inr large ↦
      let u = ltb→le n 10 large in
      rw large (
        value_from-append (digits_within fuel (n / 10)) 0 (n % 10)
        ∙ omega (arith, value-digits_within fuel (n / 10) (omega arith)))
]
  where
    value_from-zero : (n : ℕ) → value_from 0 [] * 10 + n ≡ n
    value_from-zero n = omega arith

pub to_string-AllDigits : (n : ℕ) → AllDigits (to_string n)
unfolding to_string
to_string-AllDigits n = digits_within-AllDigits (suc n) n

-- A number is worth what it was written for.
pub value-to_string : (n : ℕ) → value_from 0 (to_string n) ≡ n
unfolding to_string
value-to_string n = value-digits_within (suc n) n (omega arith)

-- It starts with a digit.
pub to_string-cons : (n : ℕ) → (c : ℕ) × (cs : List ℕ) × (to_string n ≡ c ∷ cs)
unfolding to_string
to_string-cons n = elim (Bool-cases (ltb n 10)) [
  | inl small ↦ (48 + n, [], rw small refl)
  | inr large ↦ rw large (first (digits_within n (n / 10)) (48 + n % 10))
]
  where
    first : (xs : List ℕ) (d : ℕ) → (c : ℕ) × (cs : List ℕ) × (xs ++ d ∷ [] ≡ c ∷ cs)
    first [] d = (d, [], refl)
    first (x ∷ xs) d = (x, xs ++ d ∷ [], refl)

pub padded-AllDigits : (width n : ℕ) → AllDigits (padded width n)
unfolding padded
padded-AllDigits zero n = tt
padded-AllDigits (suc width) n =
    AllDigits-append _ (n % 10) (padded-AllDigits width (n / 10)) (omega arith)

pub length-padded : (width n : ℕ) → length (padded width n) ≡ width
unfolding padded
length-padded zero n = refl
length-padded (suc width) n = omega (
  arith,
  length-append (padded width (n / 10)) ((b'0' + n % 10) ∷ []),
  length-padded width (n / 10),
)

pub value-padded : (width n : ℕ) → n < 10 ^ width → value_from 0 (padded width n) ≡ n
unfolding padded value_from
value-padded zero n h = absent n h
  where
    absent : (n : ℕ) → n < 1 → value_from 0 [] ≡ n
    absent n h = omega arith
value-padded (suc width) n h =
    let p = pow-suc 10 width in
    value_from-append (padded width (n / 10)) 0 (n % 10)
    ∙ omega (arith, value-padded width (n / 10) (omega arith))

-- Digits before something else are taken, and it is left.
pub take_digits-append :
    (ds : List ℕ) (c : ℕ) (cs : List ℕ)
    → AllDigits ds
    → is_ascii_digit c ≡ false
    → (take_digits (ds ++ c ∷ cs) ≡ ds) × (drop_digits (ds ++ c ∷ cs) ≡ c ∷ cs)
unfolding take_digits drop_digits
take_digits-append [] c cs h k = (rw k refl, rw k refl)
take_digits-append (d ∷ ds) c cs (h, hs) k =
    let (e, f) = take_digits-append ds c cs hs k in (rw (h, e) refl, rw (h, f) refl)

-- The digits, without zeros at their end.
pub record Trimmed (ds trimmed : List ℕ) : Type 0 where
  pub zeros : ℕ
  pub size : length ds ≡ length trimmed + zeros
  pub digits : AllDigits trimmed
  pub worth : (n : ℕ) → value_from n ds ≡ value_from n trimmed * 10 ^ zeros

one_zero : (d : ℕ) → d ≡ b'0' → (n z : ℕ) → (n * 10 + (d - b'0')) * 10 ^ z ≡ n * 10 ^ suc z
one_zero d e n z =
    let first : n * 10 + (d - b'0') ≡ n * 10 = omega arith in rw (first, pow-suc 10 z) (omega arith)

Trimmed-one :
    (d : ℕ) (ds trimmed : List ℕ)
    → is_ascii_digit d ≡ true
    → Trimmed ds trimmed
    → Trimmed (d ∷ ds) (if is_empty trimmed && (d == b'0') then [] else d ∷ trimmed)
unfolding value_from
Trimmed-one d ds (c ∷ cs) h t = record {
  zeros = t.zeros;
  size = omega (arith, t.size);
  digits = (h, t.digits);
  worth = λ n. t.worth (n * 10 + (d - b'0'));
}
Trimmed-one d ds [] h t = elim (Bool-cases (d == b'0')) [
  | inl zero_digit ↦ rw zero_digit (record {
    zeros = suc t.zeros;
    size = omega (arith, t.size);
    digits = tt;
    worth = λ n. t.worth (n * 10 + (d - b'0')) ∙ one_zero d (==→eq d b'0' zero_digit) n t.zeros;
  })
  | inr other ↦ rw other (record {
    zeros = t.zeros;
    size = omega (arith, t.size);
    digits = (h, tt);
    worth = λ n. t.worth (n * 10 + (d - b'0'));
  })
]

pub trim_end_zeros-Trimmed : (ds : List ℕ) → AllDigits ds → Trimmed ds (trim_end_zeros ds)
unfolding trim_end_zeros value_from
trim_end_zeros-Trimmed [] h = record {
  zeros = 0;
  size = refl;
  digits = tt;
  worth = λ n. omega arith;
}
trim_end_zeros-Trimmed (d ∷ ds) (h, hs) =
    Trimmed-one d ds (trim_end_zeros ds) h (trim_end_zeros-Trimmed ds hs)
