-- ===== src/Dns/Svcb/RoundTrip.antt =====
-- src/dns/svcb.rs: a record that is written is read back.
use fetch.Common.{
  ℕ, zero, suc, ◌+◌, ◌^◌, ◌≤◌, ◌<◌, ◌≡◌, refl, ap, false, some, append_assoc, List, [], ◌∷◌, ◌++◌,
  Bytes, length, length-append, take-length-append, drop-length-append, le→ltb, ◌==◌, arith,
}
use fetch.Common.Bits.{bit_and_high_2}
use fetch.Common.Utf8.{from_utf8_lossy-is_utf8}
use fetch.Common.Words.{u16_to_be_bytes, u16_from-to_be_bytes}
use fetch.Dns.Wire.{joined}
use fetch.Dns.Wire.Encoding.{encoded, Sized}
use fetch.Dns.Wire.Labels.{AllUtf8}
use fetch.Dns.Svcb.{
  SvcParam, unpack_labels, unpack_dns_name, read_params, record_from_params, parse_rdata,
}

-- The data of a record.
abbrev pub write_params : List SvcParam → Bytes
write_params [] = []
write_params (param ∷ params) =
    u16_to_be_bytes param.key
    ++ (u16_to_be_bytes (length param.value) ++ (param.value ++ write_params params))

abbrev pub write_rdata : ℕ → List Bytes → List SvcParam → Bytes
write_rdata priority labels params =
    u16_to_be_bytes priority ++ (encoded labels ++ 0 ∷ write_params params)

-- The keys and lengths are words.
abbrev pub Words : List SvcParam → Type 0
Words [] = Unit
Words (param ∷ params) = (param.key < 2 ^ 16) × (length param.value < 2 ^ 16) × Words params

read_params-write_params :
    (params : List SvcParam) (fuel : ℕ)
    → Words params
    → length (write_params params) ≤ fuel
    → read_params fuel (write_params params) ≡ some params
unfolding read_params
read_params-write_params [] zero w h = refl
read_params-write_params [] (suc fuel) w h = refl
read_params-write_params (param ∷ params) zero w h = absurd (omega arith)
read_params-write_params (param ∷ params) (suc fuel) (k, l, w) h =
    let value : Bytes = param.value in
    let rest : Bytes = write_params params in
    let size = length-append value rest in
    let key = u16_from-to_be_bytes param.key k in
    let len = u16_from-to_be_bytes (length value) l in
    let place : length value + 4 ≡ suc (suc (suc (suc (length value)))) = omega arith in
    rw
      (
        key,
        len,
        le→ltb (length (write_params (param ∷ params))) 4 (omega arith),
        le→ltb (length (write_params (param ∷ params))) (4 + length value) (omega arith),
        place,
        take-length-append value rest,
        drop-length-append value rest,
        read_params-write_params params fuel w (omega arith),
      )
      refl

length-encoded_rest :
    (label : Bytes) (labels : List Bytes) (rest : Bytes)
    → length (label ++ (encoded labels ++ rest)) ≡ length label + length (encoded labels ++ rest)
length-encoded_rest label labels rest = length-append label (encoded labels ++ rest)

unpack_labels-encoded :
    (labels : List Bytes) (rest : Bytes) (fuel : ℕ)
    → Sized labels
    → AllUtf8 labels
    → length (encoded labels ++ 0 ∷ rest) ≤ fuel
    → unpack_labels fuel (encoded labels ++ 0 ∷ rest) ≡ some (labels, rest)
unfolding unpack_labels
unpack_labels-encoded [] rest zero s u h = absurd (omega arith)
unpack_labels-encoded [] rest (suc fuel) s u h = refl
unpack_labels-encoded (label ∷ labels) rest zero s u h = absurd (omega arith)
unpack_labels-encoded (label ∷ labels) rest (suc fuel) (p, l, s) (v, u) h =
    let others : Bytes = encoded labels ++ 0 ∷ rest in
    let shape : (label ++ encoded labels) ++ 0 ∷ rest ≡ label ++ others =
      append_assoc label (encoded labels) (0 ∷ rest) in
    let total = ap length shape in
    let size = length-append label others in
    rw
      (
        shape,
        positive (length label) p,
        bit_and_high_2 (length label) (omega arith),
        le→ltb (length (label ++ others)) (length label) (omega arith),
        take-length-append label others,
        drop-length-append label others,
        from_utf8_lossy-is_utf8 label v,
        unpack_labels-encoded labels rest fuel s u (omega arith),
      )
      refl
  where
    positive : (n : ℕ) → 0 < n → (n == 0) ≡ false
    positive n h = ground arith

-- A record of words and of a name that is read back, written with its parameters in any order, gives
-- what these parameters make of it.
pub parse_rdata-write_rdata :
    (priority : ℕ) (labels : List Bytes) (params : List SvcParam)
    → priority < 2 ^ 16
    → Sized labels
    → AllUtf8 labels
    → Words params
    → parse_rdata (write_rdata priority labels params)
      ≡ record_from_params priority (joined labels) params
unfolding parse_rdata unpack_dns_name
parse_rdata-write_rdata priority labels params p s u w =
    let rest : Bytes = write_params params in
    let body : Bytes = encoded labels ++ 0 ∷ rest in
    let size = length-append (encoded labels) (0 ∷ rest) in
    rw
      (
        le→ltb (length (write_rdata priority labels params)) 3 (omega arith),
        unpack_labels-encoded labels rest (length body) s u (omega arith),
        read_params-write_params params (length rest) w (omega arith),
        u16_from-to_be_bytes priority p,
      )
      refl
