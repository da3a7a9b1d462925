-- ===== src/Grpc/Wire/Fields.antt =====
-- src/grpc/reflection.rs: whole fields, written and read back; and what reading takes away.
use Prim.Native.Nat.{bit_and}
use fetch.Common.{
  ℕ, ◌+◌, ◌*◌, ◌/◌, ◌%◌, ◌^◌, ◌≤◌, ◌<◌, ◌≡◌, ◌∙◌, true, Option, none, some, ◌++◌, Bytes,
  append_assoc, le→ltb, take-length-append, drop-length-append, length-append, length, ok, arith,
}
use fetch.Common.Bits.{shifted-bit_or, bit_and_low_3}
use fetch.Common.Utf8.{is_utf8}
use fetch.Grpc.Wire.{
  append_varint, append_key, append_bytes, read_key, read_len, read_bytes, read_string, wire_bytes,
}
use fetch.Grpc.Wire.Varint.{read_varint-append_varint}

append_key_lem :
    (out : Bytes) (field wire : ℕ)
    → field < 2 ^ 61
    → wire < 8
    → append_key out field wire ≡ append_varint out (wire + field * 2 ^ 3)
unfolding append_key
append_key_lem out field wire h k =
    let m : field * 2 ^ 3 % 2 ^ 64 ≡ field * 2 ^ 3 = omega arith in
    rw (m, shifted-bit_or 3 wire field k)

-- A field number and a wire type are written as one key, and are read back.
read_key-append_key :
    (field wire : ℕ)
    → field < 2 ^ 61
    → wire < 8
    → (bytes : Bytes) × ((out : Bytes) → append_key out field wire ≡ some (out ++ bytes))
      × (0 < length bytes)
      × ((rest : Bytes) → read_key (bytes ++ rest) ≡ ok ((field, wire), rest))
unfolding read_key
read_key-append_key field wire h k =
    let (bytes, written, nonempty, short, back) =
      read_varint-append_varint (wire + field * 2 ^ 3) (omega arith) in
    let f : (wire + field * 2 ^ 3) / 2 ^ 3 ≡ field = omega arith in
    let w : bit_and (wire + field * 2 ^ 3) 0x07 % 256 ≡ wire =
      omega (arith, bit_and_low_3 (wire + field * 2 ^ 3)) in
    (
      bytes,
      λ out. append_key_lem out field wire h k ∙ written out,
      nonempty,
      λ rest. rw (back rest, f, w),
    )

-- The bytes of a field, behind its key.
read_bytes-append_varint :
    (value : Bytes)
    → length value < 2 ^ 64
    → (bytes : Bytes) × ((out : Bytes) → append_varint out (length value) ≡ some (out ++ bytes))
      × ((rest : Bytes) → read_bytes (bytes ++ (value ++ rest)) ≡ ok (value, rest))
unfolding read_bytes read_len
read_bytes-append_varint value h =
    let (bytes, written, nonempty, short, back) = read_varint-append_varint (length value) h in
    (
      bytes,
      written,
      λ rest. rw (
        back (value ++ rest),
        le→ltb (length (value ++ rest)) (length value) (omega (arith, length-append value rest)),
        take-length-append value rest,
        drop-length-append value rest,
      ),
    )

-- What `append_bytes` writes for a field, and how it is read from the front of whatever follows.
pub record Written (field : ℕ) (value bytes : Bytes) : Type 0 where
  pub written : (out : Bytes) → append_bytes out field value ≡ some (out ++ bytes)
  pub nonempty : 0 < length bytes
  pub back :
      (rest : Bytes)
      → (middle : Bytes) × (read_key (bytes ++ rest) ≡ ok ((field, wire_bytes), middle))
        × (read_bytes middle ≡ ok (value, rest))

-- A field of bytes is written, and reading it from the front of whatever follows gives its number, its
-- wire type and then its bytes.
pub read-append_bytes :
    (value : Bytes) (field : ℕ)
    → field < 2 ^ 61
    → length value < 2 ^ 64
    → (bytes : Bytes) × Written field value bytes
unfolding append_bytes
read-append_bytes value field h k =
    let (key, keyed, nonempty, read_back) = read_key-append_key field wire_bytes h (omega arith) in
    let (size, sized, taken) = read_bytes-append_varint value k in
    (
      key ++ (size ++ value),
      record {
        written = λ out.
            rw (
              keyed out,
              append_bytes,
              sized (out ++ key),
              append_bytes,
              append_assoc,
              append_assoc,
            );
        nonempty = omega (arith, length-append key (size ++ value));
        back = λ rest.
            (size ++ (value ++ rest), rw (append_assoc, append_assoc) (read_back _), taken rest);
      },
    )

-- What is written is at least as long as the value.
pub length-append_bytes :
    (out : Bytes) (field : ℕ) (value : Bytes) {raw : Bytes}
    → append_bytes out field value ≡ some raw
    → length value ≤ length raw
unfolding append_bytes
length-append_bytes out field value {raw} e = go (append_key out field wire_bytes) e
  where
    sized :
        (keyed : Bytes) (o : Option Bytes)
        → (elim o [ none ↦ none | some s ↦ some (s ++ value) ]) ≡ some raw
        → length value ≤ length raw
    sized keyed none q = cc
    sized keyed (some s) q =
        let r : raw ≡ s ++ value = cc in rw r (omega (arith, length-append s value))

    go :
        (o : Option Bytes)
        → (elim o [
          | none ↦ none
          | some keyed ↦ elim (append_varint keyed (length value)) [
            | none ↦ none
            | some s ↦ some (s ++ value)
          ]
        ])
          ≡ some raw
        → length value ≤ length raw
    go none q = cc
    go (some keyed) q = sized keyed (append_varint keyed (length value)) q

-- A text is read where its bytes are UTF-8.
pub read_string-read_bytes :
    (raw text rest : Bytes)
    → is_utf8 text ≡ true
    → read_bytes raw ≡ ok (text, rest)
    → read_string raw ≡ ok (text, rest)
unfolding read_string
read_string-read_bytes raw text rest u e = rw (e, u)
