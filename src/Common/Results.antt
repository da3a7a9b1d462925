-- ===== src/Common/Results.antt =====
-- `Result<T, E>` and what `?` does with one.
use mathlib.Core.Path.{◌≡◌, refl}
use mathlib.Core.Logic.{◌≢◌, ◌⊎◌, inl, inr}
use mathlib.Core.Bool.{Bool, true, false}
use mathlib.Core.Option.{Option, none, some}
use fetch.Common.Tests.{if◌then◌else◌}

pub data Result {ℓ κ} (Failure : Type ℓ) (T : Type κ) : Type (ℓ ⊔ κ) where
  err : Failure → Result Failure T
  ok : T → Result Failure T

module _ {ℓ κ μ} {Failure : Type ℓ} {T : Type κ} {U : Type μ} where
  infixl 5 ◌>>=◌ ◌>>◌
  abbrev pub ◌>>=◌ : Result Failure T → (T → Result Failure U) → Result Failure U
  err failure >>= rest = err failure
  ok value >>= rest = rest value

  abbrev pub ◌>>◌ : Result Failure T → Result Failure U → Result Failure U
  err failure >> rest = err failure
  ok value >> rest = rest

  -- `?` went on, so there was a value.
  pub >>=-eq-ok :
      (r : Result Failure T) (rest : T → Result Failure U) {u : U}
      → (r >>= rest) ≡ ok u
      → (value : T) × (r ≡ ok value) × (rest value ≡ ok u)
  >>=-eq-ok (err failure) rest q = cc
  >>=-eq-ok (ok value) rest q = (value, refl, q)

  pub >>-eq-ok :
      (r : Result Failure T) (rest : Result Failure U) {u : U}
      → (r >> rest) ≡ ok u
      → (value : T) × (r ≡ ok value) × (rest ≡ ok u)
  >>-eq-ok (err failure) rest q = cc
  >>-eq-ok (ok value) rest q = (value, refl, q)

module _ {ℓ κ} {Failure : Type ℓ} {T : Type κ} where
  -- `ok_or`
  abbrev pub or_err : Option T → Failure → Result Failure T
  or_err (some value) failure = ok value
  or_err none failure = err failure

  pub Result-cases :
      (r : Result Failure T)
      → ((value : T) × (r ≡ ok value)) ⊎ ((failure : Failure) × (r ≡ err failure))
  Result-cases (err failure) = inr (failure, refl)
  Result-cases (ok value) = inl (value, refl)

  pub ok_inj : {x y : T} → ◌≡◌ {A = Result Failure T} (ok x) (ok y) → x ≡ y
  ok_inj q = cc

-- A chain fails in no way in which none of its steps does.
pub >>=-ne-err {ℓ κ μ} :
    {Failure : Type ℓ} {T : Type κ} {U : Type μ} {failure : Failure} (r : Result Failure T)
    (rest : T → Result Failure U)
    → r ≢ err failure
    → ((value : T) → r ≡ ok value → rest value ≢ err failure)
    → (r >>= rest) ≢ err failure
>>=-ne-err (err other) rest h k = λ e. h (cc)
>>=-ne-err (ok value) rest h k = k value refl

module _ {ℓ κ} {Failure : Type ℓ} {T : Type κ} where
  -- A guard was passed, since there was a value.
  pub else-eq-ok :
      (test : Bool) (failure : Failure) (rest : Result Failure T) {value : T}
      → (if test then err failure else rest) ≡ ok value
      → (test ≡ false) × (rest ≡ ok value)
  else-eq-ok true failure rest h = cc
  else-eq-ok false failure rest h = (refl, h)

  pub then-eq-ok :
      (test : Bool) (failure : Failure) (rest : Result Failure T) {value : T}
      → (if test then rest else err failure) ≡ ok value
      → (test ≡ true) × (rest ≡ ok value)
  then-eq-ok true failure rest h = (refl, h)
  then-eq-ok false failure rest h = cc

pub >>=_assoc {ℓ κ μ ν} :
    {Failure : Type ℓ} {T : Type κ} {U : Type μ} {V : Type ν} (r : Result Failure T)
    (f : T → Result Failure U) (g : U → Result Failure V)
    → ((r >>= f) >>= g) ≡ (r >>= λ value. f value >>= g)
>>=_assoc (err failure) f g = refl
>>=_assoc (ok value) f g = refl
