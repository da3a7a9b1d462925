-- ===== src/Common/Utf8/Ascii.antt =====
-- UTF-8 cut at an ASCII byte.
use Prim.Native.Nat.{ℕ, zero, suc, ◌≤◌, ◌<◌}
use mathlib.Core.Path.{◌≡◌, refl, ap, sym, ◌∙◌}
use mathlib.Core.Bool.{Bool, true, false}
use mathlib.Core.List.{List, [], ◌∷◌}
use native.Mathlib.Omega.{arith}
use fetch.Common.Tests.{if◌then◌else◌}
use fetch.Common.Utf8.{
  State, boundary, inside, invalid, within, lead, step, run, run_invalid, is_boundary, is_utf8,
}

-- A state whose next byte is not ASCII.
abbrev pub Continues : State → Type 0
Continues boundary = Unit
Continues (inside n lo hi) = 0x80 ≤ lo
Continues invalid = Unit

lead-Continues : (c : ℕ) → Continues (lead c)
unfolding lead
lead-Continues c = ground arith

within-Continues :
    (b : Bool) (n : ℕ)
    → Continues (if b then boundary else invalid)
      × Continues (if b then inside n 0x80 0xbf else invalid)
within-Continues true n = (tt, omega arith)
within-Continues false n = (tt, tt)

pub step-Continues : (s : State) (c : ℕ) → Continues s → Continues (step s c)
unfolding step
step-Continues boundary c h = lead-Continues c
step-Continues (inside zero lo hi) c h = (within-Continues (within lo hi c) 0).0
step-Continues (inside (suc n) lo hi) c h = (within-Continues (within lo hi c) n).1
step-Continues invalid c h = tt

lead_ascii : (c : ℕ) → c < 0x80 → lead c ≡ boundary
unfolding lead
lead_ascii c h = ground arith

step_ascii : (n lo hi c : ℕ) → c < 0x80 → 0x80 ≤ lo → step (inside n lo hi) c ≡ invalid
unfolding step
step_ascii zero lo hi c a h = ground arith
step_ascii (suc n) lo hi c a h = ground arith

-- The bytes go on from the state, and end between two characters.
pub ends : State → List ℕ → Bool
unfolding run is_boundary
ends s bytes = is_boundary (run s bytes)

pub ends-is_utf8 : (bytes : List ℕ) → ends boundary bytes ≡ is_utf8 bytes
unfolding ends is_utf8
ends-is_utf8 bytes = refl

pub ends-cons : (s : State) (c : ℕ) (cs : List ℕ) → ends s (c ∷ cs) ≡ ends (step s c) cs
unfolding ends run
ends-cons s c cs = refl

ends-invalid : (bytes : List ℕ) → ends invalid bytes ≡ false
unfolding ends is_boundary
ends-invalid bytes = rw (run_invalid bytes)

-- An ASCII byte stands only between two characters.
pub ends_ascii :
    (s : State) (c : ℕ) (cs : List ℕ)
    → c < 0x80
    → Continues s
    → ends (step s c) cs ≡ true
    → (ends s [] ≡ true) × (is_utf8 cs ≡ true)
unfolding step ends
ends_ascii boundary c cs a h e = (refl, sym (ends-is_utf8 cs) ∙ (rw (lead_ascii c a) at e))
ends_ascii (inside n lo hi) c cs a h e =
    let q = ap (λ s. ends s cs) (step_ascii n lo hi c a h) in let r = ends-invalid cs in cc
ends_ascii invalid c cs a h e = let r = ends-invalid cs in cc
