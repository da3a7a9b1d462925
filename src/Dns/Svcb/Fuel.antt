-- ===== src/Dns/Svcb/Fuel.antt =====
-- src/dns/svcb.rs: the loops over the data have fuel enough.
use fetch.Common.{
  ℕ, zero, suc, ◌+◌, ◌≤◌, ◌≡◌, refl, [], ◌∷◌, Bytes, length, length-drop, get_or, drop, arith,
}
use fetch.Common.Words.{u16_from_be_bytes}
use fetch.Dns.Svcb.{unpack_labels, read_params, alpn_loop}

unpack_labels-fuel :
    (fuel more : ℕ) (raw : Bytes)
    → length raw ≤ fuel
    → length raw ≤ more
    → unpack_labels fuel raw ≡ unpack_labels more raw
unfolding unpack_labels
unpack_labels-fuel zero zero [] h k = refl
unpack_labels-fuel zero (suc more) [] h k = refl
unpack_labels-fuel (suc fuel) zero [] h k = refl
unpack_labels-fuel (suc fuel) (suc more) [] h k = refl
unpack_labels-fuel zero more (len ∷ rest) h k = absurd (omega arith)
unpack_labels-fuel (suc fuel) zero (len ∷ rest) h k = absurd (omega arith)
unpack_labels-fuel (suc fuel) (suc more) (len ∷ rest) h k =
    let size = length-drop len rest in
    rw (unpack_labels-fuel fuel more (drop len rest) (omega arith) (omega arith)) refl

read_params-fuel :
    (fuel more : ℕ) (raw : Bytes)
    → length raw ≤ fuel
    → length raw ≤ more
    → read_params fuel raw ≡ read_params more raw
unfolding read_params
read_params-fuel zero zero [] h k = refl
read_params-fuel zero (suc more) [] h k = refl
read_params-fuel (suc fuel) zero [] h k = refl
read_params-fuel (suc fuel) (suc more) [] h k = refl
read_params-fuel zero more (byte ∷ rest) h k = absurd (omega arith)
read_params-fuel (suc fuel) zero (byte ∷ rest) h k = absurd (omega arith)
read_params-fuel (suc fuel) (suc more) (byte ∷ rest) h k =
    let raw : Bytes = byte ∷ rest in
    let len : ℕ = u16_from_be_bytes (get_or raw 2 0) (get_or raw 3 0) in
    let size = length-drop (len + 4) raw in
    rw (read_params-fuel fuel more (drop (len + 4) raw) (omega arith) (omega arith)) refl

alpn_loop-fuel :
    (fuel more : ℕ) (value : Bytes)
    → length value ≤ fuel
    → length value ≤ more
    → alpn_loop fuel value ≡ alpn_loop more value
unfolding alpn_loop
alpn_loop-fuel zero zero [] h k = refl
alpn_loop-fuel zero (suc more) [] h k = refl
alpn_loop-fuel (suc fuel) zero [] h k = refl
alpn_loop-fuel (suc fuel) (suc more) [] h k = refl
alpn_loop-fuel zero more (len ∷ rest) h k = absurd (omega arith)
alpn_loop-fuel (suc fuel) zero (len ∷ rest) h k = absurd (omega arith)
alpn_loop-fuel (suc fuel) (suc more) (len ∷ rest) h k =
    let size = length-drop len rest in
    rw (alpn_loop-fuel fuel more (drop len rest) (omega arith) (omega arith)) refl
