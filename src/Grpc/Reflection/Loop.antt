-- ===== src/Grpc/Reflection/Loop.antt =====
-- src/grpc/reflection.rs: a loop over the fields of a message ends before its fuel does.
use fetch.Common.{
  ℕ, zero, suc, ◌≤◌, ◌≡◌, ◌≢◌, refl, [], ◌∷◌, Bytes, ◌⊎◌, inl, inr, length, Result, ok, err, ◌>>=◌,
  arith,
}
use fetch.Grpc.Wire.{WireError, out_of_fuel, read_key}
use fetch.Grpc.Wire.Reads.{Reads, read_key-Reads}
use fetch.Grpc.Reflection.{Next, next_field, go_on, return, fields_loop}

-- What the body of a loop leaves is no longer than what it was given.
abbrev pub Settles {ℓ κ} : {S : Type ℓ} {A : Type κ} → ℕ → Result WireError (Next S A) → Type 0
Settles n (ok (go_on s rest)) = length rest ≤ n
Settles n (ok (return a)) = Unit {0}
Settles n (err e) = e ≢ out_of_fuel

-- A result that the source can give.
abbrev pub IsReal {ℓ} : {A : Type ℓ} → Result WireError A → Type 0
IsReal (ok a) = Unit {0}
IsReal (err e) = e ≢ out_of_fuel

module _ {ℓ κ} {S : Type ℓ} {A : Type κ} where
  pub next_cases :
      (m : Result WireError (Next S A))
      → ((s : S) × (rest : Bytes) × (m ≡ ok (go_on s rest)))
        ⊎ ((a : A) × (m ≡ ok (return a)))
        ⊎ ((e : WireError) × (m ≡ err e))
  next_cases (ok (go_on s rest)) = inl (s, rest, refl)
  next_cases (ok (return a)) = inr (inl (a, refl))
  next_cases (err e) = inr (inr (e, refl))

  Settles-mono : (n m : ℕ) (r : Result WireError (Next S A)) → n ≤ m → Settles n r → Settles m r
  Settles-mono n m (ok (go_on s rest)) h k = omega arith
  Settles-mono n m (ok (return a)) h k = tt
  Settles-mono n m (err e) h k = k

module _ {ℓ κ} {S : Type ℓ} {A : Type κ} (field : S → ℕ → ℕ → Bytes → Result WireError (Next S A))
    (finish : S → Result WireError A)
    (settles : (s : S) (number wire : ℕ) (raw : Bytes)
      → Settles (length raw) (field s number wire raw))
    (finishes : (s : S) → IsReal (finish s)) where
  next_field-Settles :
      (s : S) (c : ℕ) (cs : Bytes) → Settles (length cs) (next_field field s (c ∷ cs))
  unfolding next_field
  next_field-Settles s c cs = go (read_key (c ∷ cs)) (read_key-Reads (c ∷ cs))
    where
      go :
          (r : Result WireError ((ℕ × ℕ) × Bytes))
          → Reads (suc (length cs)) r
          → Settles (length cs) (r >>= λ ((number, wire), rest). field s number wire rest)
      go (ok ((number, wire), rest)) h =
          Settles-mono (length rest) (length cs) (field s number wire rest) (omega arith)
            (settles s number wire rest)
      go (err e) h = h

  pub fields_loop-IsReal :
      (fuel : ℕ) (s : S) (raw : Bytes)
      → length raw ≤ fuel
      → IsReal (fields_loop field finish fuel s raw)
  unfolding fields_loop
  fields_loop-IsReal fuel s [] h = finishes s
  fields_loop-IsReal zero s (c ∷ cs) h = absurd (omega arith)
  fields_loop-IsReal (suc fuel) s (c ∷ cs) h = elim (next_cases (next_field field s (c ∷ cs))) [
    | inl (s', rest, e) ↦
        let shorter : length rest ≤ length cs = rw e at (next_field-Settles s c cs) in
        rw (e, fields_loop) (fields_loop-IsReal fuel s' rest (omega arith))
    | inr (inl (a, e)) ↦ rw (e, fields_loop) tt
    | inr (inr (x, e)) ↦ rw (e, fields_loop) (rw e at (next_field-Settles s c cs))
  ]
