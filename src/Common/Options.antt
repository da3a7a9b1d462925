-- ===== src/Common/Options.antt =====
-- `?` on an `Option`, as `Option::and_then`.
use mathlib.Core.Path.{◌≡◌, refl}
use mathlib.Core.Option.{Option, none, some}

module _ {ℓ κ} {A : Type ℓ} {B : Type κ} where
  abbrev pub and_then : Option A → (A → Option B) → Option B
  and_then none f = none
  and_then (some a) f = f a

  pub and_then-eq-some :
      (o : Option A) (f : A → Option B) {b : B}
      → and_then o f ≡ some b
      → (a : A) × (o ≡ some a) × (f a ≡ some b)
  and_then-eq-some none f e = cc
  and_then-eq-some (some a) f e = (a, refl, e)

pub some_inj {ℓ} : {A : Type ℓ} {a b : A} → some a ≡ some b → a ≡ b
some_inj e = cc
