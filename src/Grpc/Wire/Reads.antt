-- ===== src/Grpc/Wire/Reads.antt =====
-- src/grpc/reflection.rs: reading takes bytes away, and fails for a reason of the source.
use fetch.Common.{
  ℕ, ◌*◌, ◌/◌, ◌%◌, ◌^◌, ◌≤◌, ◌<◌, ◌≢◌, Bool-cases, List, [], ◌∷◌, Bytes, inl, inr, length-drop,
  length, take, drop, ltb, ◌==◌, if◌then◌else◌, Result, ok, err, ◌>>=◌, arith,
}
use Prim.Native.Nat.{bit_and, bit_or}
use fetch.Common.Utf8.{is_utf8}
use fetch.Grpc.Wire.{
  WireError, invalid_utf8, out_of_fuel, eof_in_field, eof_in_bytes, shifts, read_varint_from,
  read_varint, read_key, read_len, read_bytes, read_string, skip, skip_value,
}

-- At least one byte is taken from `n` of them.
abbrev pub Reads {ℓ} : {A : Type ℓ} → ℕ → Result WireError (A × Bytes) → Type 0
Reads n (ok (a, rest)) = length rest < n
Reads n (err e) = e ≢ out_of_fuel

abbrev pub Skips : ℕ → Result WireError Bytes → Type 0
Skips n (ok rest) = length rest ≤ n
Skips n (err e) = e ≢ out_of_fuel

Reads-mono {ℓ} :
    {A : Type ℓ} (n m : ℕ) (r : Result WireError (A × Bytes)) → n ≤ m → Reads n r → Reads m r
Reads-mono n m (ok (a, rest)) h k = omega arith
Reads-mono n m (err e) h k = k

read_varint_from-Reads :
    (more : List ℕ) (value : ℕ) (raw : Bytes) → Reads (length raw) (read_varint_from more value raw)
unfolding read_varint_from
read_varint_from-Reads [] value raw = λ e. cc
read_varint_from-Reads (s ∷ more) value [] = λ e. cc
read_varint_from-Reads (s ∷ more) value (b ∷ rest) =
    let value' = bit_or value (bit_and b 0x7f * 2 ^ s % 2 ^ 64) in
    elim (Bool-cases (bit_and b 0x80 == 0)) [
      | inl last ↦ rw last (omega arith)
      | inr next ↦ rw next (
          Reads-mono (length rest) _ (read_varint_from more value' rest) (omega arith)
            (read_varint_from-Reads more value' rest))
    ]

read_varint-Reads : (raw : Bytes) → Reads (length raw) (read_varint raw)
unfolding read_varint
read_varint-Reads raw = read_varint_from-Reads (shifts 10 0) 0 raw

pub read_key-Reads : (raw : Bytes) → Reads (length raw) (read_key raw)
unfolding read_key
read_key-Reads raw = go (read_varint raw) (read_varint-Reads raw)
  where
    go :
        (r : Result WireError (ℕ × Bytes))
        → Reads (length raw) r
        → Reads {A = ℕ × ℕ}
            (length raw)
            (r >>= λ (key, rest). ok ((key / 2 ^ 3, bit_and key 0x07 % 256), rest))
    go (ok (key, rest)) h = h
    go (err e) h = h

read_len-Reads :
    (raw : Bytes) (eof : WireError) → eof ≢ out_of_fuel → Reads (length raw) (read_len raw eof)
unfolding read_len
read_len-Reads raw eof k = go (read_varint raw) (read_varint-Reads raw)
  where
    go :
        (r : Result WireError (ℕ × Bytes))
        → Reads (length raw) r
        → Reads
            (length raw)
            (r >>= λ (len, rest). if ltb (length rest) len then err eof else ok (len, rest))
    go (ok (len, rest)) h = ground arith
    go (err e) h = h

pub read_bytes-Reads : (raw : Bytes) → Reads (length raw) (read_bytes raw)
unfolding read_bytes
read_bytes-Reads raw = go (read_len raw eof_in_bytes) (read_len-Reads raw eof_in_bytes (λ e. cc))
  where
    go :
        (r : Result WireError (ℕ × Bytes))
        → Reads (length raw) r
        → Reads (length raw) (r >>= λ (len, rest). ok (take len rest, drop len rest))
    go (ok (len, rest)) h = omega (arith, length-drop len rest)
    go (err e) h = h

pub read_string-Reads : (raw : Bytes) → Reads (length raw) (read_string raw)
unfolding read_string
read_string-Reads raw = go (read_bytes raw) (read_bytes-Reads raw)
  where
    go :
        (r : Result WireError (Bytes × Bytes))
        → Reads (length raw) r
        → Reads
            (length raw)
            (r >>= λ (bytes, rest). if is_utf8 bytes then ok (bytes, rest) else err invalid_utf8)
    go (ok (bytes, rest)) h = ground arith
    go (err e) h = h

skip-Skips : (raw : Bytes) (len : ℕ) → Skips (length raw) (skip raw len)
unfolding skip
skip-Skips raw len = ground (arith, length-drop len raw)

skip_read-Skips :
    (n : ℕ) (r : Result WireError (ℕ × Bytes))
    → Reads n r
    → Skips n (r >>= λ (value, rest). ok rest)
skip_read-Skips n (ok (value, rest)) h = omega arith
skip_read-Skips n (err e) h = h

skip_len-Skips :
    (n : ℕ) (r : Result WireError (ℕ × Bytes))
    → Reads n r
    → Skips n (r >>= λ (len, rest). skip rest len)
unfolding skip
skip_len-Skips n (ok (len, rest)) h = ground (arith, length-drop len rest)
skip_len-Skips n (err e) h = h

pub skip_value-Skips : (wire : ℕ) (raw : Bytes) → Skips (length raw) (skip_value wire raw)
unfolding skip_value
skip_value-Skips wire raw = elim (Bool-cases (wire == 0)) [
  | inl a ↦ rw a (skip_read-Skips _ (read_varint raw) (read_varint-Reads raw))
  | inr a ↦ rw a (elim (Bool-cases (wire == 1)) [
    | inl b ↦ rw b (skip-Skips raw 8)
    | inr b ↦ rw b (elim (Bool-cases (wire == 2)) [
      | inl c ↦
          rw c (
            skip_len-Skips _ (read_len raw eof_in_field)
              (read_len-Reads raw eof_in_field (λ e. cc)))
      | inr c ↦ rw c (elim (Bool-cases (wire == 5)) [
        | inl d ↦ rw d (skip-Skips raw 4)
        | inr d ↦ rw d (λ e. cc)
      ])
    ])
  ])
]
