-- ===== src/Common/Utf8.antt =====
-- `std::str::from_utf8`: which byte sequences are UTF-8.
pub mod Ascii
use fetch.Common.Tests.{leb, ◌==◌, if◌then◌else◌}
use Prim.Native.Nat.{ℕ, zero, suc}
use mathlib.Core.Bool.{Bool, true, false, ◌&&◌}
use mathlib.Core.List.{List, [], ◌∷◌, ◌++◌, append-nil, append_assoc}
use mathlib.Core.Path.{◌≡◌, refl, ap}

-- Between two characters, inside one with the range of the next byte, or behind an error.
pub data State : Type 0 where
  boundary : State
  inside : ℕ → ℕ → ℕ → State
  invalid : State

abbrev within : ℕ → ℕ → ℕ → Bool
within lo hi c = leb lo c && leb c hi

unfoldable pub lead : ℕ → State
lead c =
    if leb c 0x7f
    then boundary
    else if within 0xc2 0xdf c
    then inside 0 0x80 0xbf
    else if c == 0xe0
    then inside 1 0xa0 0xbf
    else if c == 0xed
    then inside 1 0x80 0x9f
    else if within 0xe1 0xef c
    then inside 1 0x80 0xbf
    else if c == 0xf0
    then inside 2 0x90 0xbf
    else if within 0xf1 0xf3 c
    then inside 2 0x80 0xbf
    else if c == 0xf4
    then inside 2 0x80 0x8f
    else invalid

-- The first field of `inside` counts the bytes behind the next one.
pub step : State → ℕ → State
unfolding lead
step boundary c = lead c
step (inside zero lo hi) c = if within lo hi c then boundary else invalid
step (inside (suc n) lo hi) c = if within lo hi c then inside n 0x80 0xbf else invalid
step invalid c = invalid

pub run : State → List ℕ → State
unfolding step
run s [] = s
run s (c ∷ cs) = run (step s c) cs

is_boundary : State → Bool
is_boundary boundary = true
is_boundary _ = false

unfoldable pub is_utf8 : List ℕ → Bool
unfolding run is_boundary
is_utf8 bytes = is_boundary (run boundary bytes)

-- `String::from_utf8_lossy`: each longest start of a character that does not go on becomes U+FFFD.
-- What is pending is the start of a character, in the order it came.
abbrev pub replacement : List ℕ
replacement = 0xef ∷ 0xbf ∷ 0xbd ∷ []

-- A byte at the front of a character.
abbrev begin : State → ℕ → List ℕ × List ℕ
begin boundary c = (c ∷ [], [])
begin (inside n lo hi) c = ([], c ∷ [])
begin invalid c = (replacement, [])

-- A byte behind the start of one: out, and pending.
abbrev go_on : State → ℕ → List ℕ → State → State × (List ℕ × List ℕ)
go_on fresh c pending boundary = (boundary, (pending ++ c ∷ [], []))
go_on fresh c pending (inside n lo hi) = (inside n lo hi, ([], pending ++ c ∷ []))
go_on boundary c pending invalid = (boundary, (replacement ++ c ∷ [], []))
go_on (inside n lo hi) c pending invalid = (inside n lo hi, (replacement, c ∷ []))
go_on invalid c pending invalid = (boundary, (replacement ++ replacement, []))

abbrev resynced : State → State
resynced invalid = boundary
resynced s = s

unfoldable pub lossy : State → List ℕ → List ℕ → List ℕ
lossy boundary pending [] = []
lossy (inside n lo hi) pending [] = replacement
lossy invalid pending [] = []
lossy boundary pending (c ∷ cs) =
    let (out, left) = begin (lead c) c in out ++ lossy (resynced (lead c)) left cs
lossy (inside n lo hi) pending (c ∷ cs) =
    let (s, (out, left)) = go_on (lead c) c pending (step (inside n lo hi) c) in
    out ++ lossy s left cs
lossy invalid pending (c ∷ cs) = lossy boundary [] cs

unfoldable pub from_utf8_lossy : List ℕ → List ℕ
from_utf8_lossy bytes = lossy boundary [] bytes

pub run_invalid : (bytes : List ℕ) → run invalid bytes ≡ invalid
unfolding run step
run_invalid [] = refl
run_invalid (c ∷ cs) = run_invalid cs

-- Pending bytes only inside a character.
abbrev Fits : State → List ℕ → Type 0
Fits boundary pending = pending ≡ []
Fits (inside n lo hi) pending = Unit
Fits invalid pending = Unit

abbrev Kept : List ℕ → Type 0
Kept cs =
    (s : State) (pending : List ℕ)
    → Fits s pending
    → run s cs ≡ boundary
    → lossy s pending cs ≡ pending ++ cs

begin-Kept :
    (c : ℕ) (cs : List ℕ) (s : State)
    → Kept cs
    → run s cs ≡ boundary
    → ((begin s c).0 ++ lossy (resynced s) (begin s c).1 cs) ≡ c ∷ cs
begin-Kept c cs boundary k e = ap (◌∷◌ c) (k boundary [] refl e)
begin-Kept c cs (inside n lo hi) k e = k (inside n lo hi) (c ∷ []) tt e
begin-Kept c cs invalid k e = let r = run_invalid cs in cc

go_on-Kept :
    (fresh : State) (c : ℕ) (pending cs : List ℕ) (s : State)
    → Kept cs
    → run s cs ≡ boundary
    → let (s', (out, left)) = go_on fresh c pending s in
      (out ++ lossy s' left cs) ≡ pending ++ c ∷ cs
go_on-Kept fresh c pending cs boundary k e = rw (k boundary [] refl e, append_assoc)
go_on-Kept fresh c pending cs (inside n lo hi) k e =
    rw (k (inside n lo hi) (pending ++ c ∷ []) tt e, append_assoc)
go_on-Kept fresh c pending cs invalid k e = let r = run_invalid cs in cc

lossy-valid : (bytes : List ℕ) → Kept bytes
unfolding lossy run
lossy-valid [] boundary pending f e = rw f refl
lossy-valid [] (inside n lo hi) pending f e = cc
lossy-valid [] invalid pending f e = cc
lossy-valid (c ∷ cs) boundary pending f e = rw f (begin-Kept c cs (lead c) (lossy-valid cs) e)
lossy-valid (c ∷ cs) (inside n lo hi) pending f e =
    go_on-Kept (lead c) c pending cs (step (inside n lo hi) c) (lossy-valid cs) e
lossy-valid (c ∷ cs) invalid pending f e = let r = run_invalid (c ∷ cs) in cc

is_boundary-eq : (s : State) → is_boundary s ≡ true → s ≡ boundary
unfolding is_boundary
is_boundary-eq boundary h = refl
is_boundary-eq (inside n lo hi) h = cc
is_boundary-eq invalid h = cc

-- Valid bytes are kept.
pub from_utf8_lossy-is_utf8 :
    (bytes : List ℕ) → is_utf8 bytes ≡ true → from_utf8_lossy bytes ≡ bytes
unfolding from_utf8_lossy is_utf8
from_utf8_lossy-is_utf8 bytes h = lossy-valid bytes boundary [] refl (is_boundary-eq _ h)
