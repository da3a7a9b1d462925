-- ===== src/Common/Text.antt =====
-- Texts as bytes: `==`, `to_ascii_lowercase` and `eq_ignore_ascii_case`.
use Prim.Native.Nat.{ℕ, ◌+◌}
use Prim.Native.Char.{code}
use Prim.Native.String.{String}
use mathlib.Core.Path.{◌≡◌, refl}
use mathlib.Core.Bool.{Bool, true, false, ◌&&◌}
use mathlib.Core.List.{List, [], ◌∷◌, map}
use fetch.Common.Tests.{leb, ◌==◌, ==→eq, eq→==, if◌then◌else◌}

unfoldable pub bytes_eq : List ℕ → List ℕ → Bool
bytes_eq [] [] = true
bytes_eq (x ∷ xs) (y ∷ ys) = (x == y) && bytes_eq xs ys
bytes_eq [] (y ∷ ys) = false
bytes_eq (x ∷ xs) [] = false

pub &&-both : (a b : Bool) → a && b ≡ true → (a ≡ true) × (b ≡ true)
&&-both true b h = (refl, h)
&&-both false b h = cc

pub &&-false : (b : Bool) → b && false ≡ false
&&-false true = refl
&&-false false = refl

pub bytes_eq→eq : (xs ys : List ℕ) → bytes_eq xs ys ≡ true → xs ≡ ys
unfolding bytes_eq
bytes_eq→eq [] [] h = refl
bytes_eq→eq (x ∷ xs) (y ∷ ys) h =
    let (e, r) = &&-both (x == y) (bytes_eq xs ys) h in
    let p = ==→eq x y e in let q = bytes_eq→eq xs ys r in cc
bytes_eq→eq [] (y ∷ ys) h = cc
bytes_eq→eq (x ∷ xs) [] h = cc

pub bytes_eq_self : (xs : List ℕ) → bytes_eq xs xs ≡ true
unfolding bytes_eq
bytes_eq_self [] = refl
bytes_eq_self (x ∷ xs) = rw (eq→== x x refl) (bytes_eq_self xs)

unfoldable pub ascii_lower : ℕ → ℕ
ascii_lower c = if leb b'A' c && leb c b'Z' then c + 32 else c

unfoldable pub to_ascii_lowercase : List ℕ → List ℕ
unfolding ascii_lower
to_ascii_lowercase text = map ascii_lower text

unfoldable pub eq_ignore_ascii_case : List ℕ → List ℕ → Bool
unfolding bytes_eq to_ascii_lowercase
eq_ignore_ascii_case xs ys = bytes_eq (to_ascii_lowercase xs) (to_ascii_lowercase ys)

-- The bytes of an ASCII literal.
abbrev pub codes : String → List ℕ
codes String.[] = []
codes (String.◌∷◌ c s) = code c ∷ codes s
