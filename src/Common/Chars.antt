-- ===== src/Common/Chars.antt =====
-- `char::is_whitespace`, and `trim` of a text of code points.
use fetch.Common.Tests.{leb, ◌==◌, if◌then◌else◌}
use fetch.Common.Lists.{is_empty}
use Prim.Native.Nat.{ℕ}
use mathlib.Core.Path.{◌≡◌, refl}
use mathlib.Core.Bool.{Bool, false, ◌&&◌, ◌||◌}
use mathlib.Core.List.{List, [], ◌∷◌, ◌++◌}

abbrev one_of : List ℕ → ℕ → Bool
one_of [] c = false
one_of (a ∷ more) c = c == a || one_of more c

-- The property White_Space.
unfoldable pub is_whitespace : ℕ → Bool
is_whitespace c =
    leb 0x9 c && leb c 0xd
    || c == 0x20
    || (c == 0x85
        || c == 0xa0
        || c == 0x1680
        || (leb 0x2000 c && leb c 0x200a
            || one_of (0x2028 ∷ 0x2029 ∷ 0x202f ∷ 0x205f ∷ 0x3000 ∷ []) c))

unfoldable pub trim_start : List ℕ → List ℕ
trim_start [] = []
trim_start (c ∷ cs) = let rest = trim_start cs in if is_whitespace c then rest else c ∷ cs

unfoldable pub trim_end : List ℕ → List ℕ
trim_end [] = []
trim_end (c ∷ cs) =
    let rest = trim_end cs in if is_empty rest && is_whitespace c then [] else c ∷ rest

unfoldable pub trim : List ℕ → List ℕ
unfolding trim_start trim_end
trim text = trim_end (trim_start text)

trim_end-append :
    (cs : List ℕ) (c : ℕ) → is_whitespace c ≡ false → trim_end (cs ++ c ∷ []) ≡ cs ++ c ∷ []
unfolding trim_end
trim_end-append [] c h = rw h refl
trim_end-append (a ∷ cs) c h = rw (trim_end-append cs c h) (kept cs)
  where
    kept :
        (cs : List ℕ)
        → (if is_empty (cs ++ c ∷ []) && is_whitespace a then [] else a ∷ (cs ++ c ∷ []))
          ≡ a ∷ (cs ++ c ∷ [])
    kept [] = refl
    kept (b ∷ cs) = refl

-- A text that starts and ends with other characters is kept.
pub trim-append :
    (a : ℕ) (cs : List ℕ) (c : ℕ)
    → is_whitespace a ≡ false
    → is_whitespace c ≡ false
    → trim (a ∷ (cs ++ c ∷ [])) ≡ a ∷ (cs ++ c ∷ [])
unfolding trim trim_start
trim-append a cs c h k = rw h (trim_end-append (a ∷ cs) c k)
