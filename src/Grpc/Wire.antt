-- ===== src/Grpc/Wire.antt =====
-- src/grpc/reflection.rs: reading and writing the fields of protocol buffer messages.
-- src/proto/descriptor_wire.rs reads them by the same code.
pub mod Varint
pub mod Fields
pub mod Reads
mod Tests
use Prim.Native.Nat.{bit_and, bit_or}
use fetch.Common.{
  ℕ, zero, suc, ◌+◌, ◌*◌, ◌/◌, ◌%◌, ◌^◌, Bool, Option, none, some, List, [], ◌∷◌, ◌++◌, Bytes,
  length, take, drop, ltb, ◌==◌, if◌then◌else◌, Result, ok, err, ◌>>=◌, ◌>>◌,
}
use fetch.Common.Utf8.{is_utf8}

pub record ReflectionErrorResponse : Type 0 where
  pub code : Option ℕ
  pub message : Bytes

-- The errors that the source tells apart by their text. `out_of_fuel` is the model's own.
pub data WireError : Type 0 where
  eof_in_varint varint_overflow eof_in_bytes eof_in_field invalid_utf8 : WireError
  unsupported_wire_type : ℕ → WireError
  missing_list missing_service_name missing_descriptor : WireError
  reflection : ReflectionErrorResponse → WireError
  out_of_fuel : WireError

abbrev pub wire_varint : ℕ
wire_varint = 0

abbrev pub wire_64bit : ℕ
wire_64bit = 1

abbrev pub wire_bytes : ℕ
wire_bytes = 2

abbrev pub wire_32bit : ℕ
wire_32bit = 5

-- The loop of `append_varint` on `value`, a `u64`; `none` means that the fuel ran out.
unfoldable pub varint_bytes : ℕ → ℕ → Option Bytes
varint_bytes zero value = none
varint_bytes (suc fuel) value =
    let rest = varint_bytes fuel (value / 2 ^ 7) in
    if ltb value 0x80
    then some ((value % 256) ∷ [])
    else elim rest [ none ↦ none | some more ↦ some (bit_or (value % 256) 0x80 ∷ more) ]

-- Ten groups of seven bits hold a `u64`.
unfoldable pub append_varint : Bytes → ℕ → Option Bytes
append_varint out value = elim (varint_bytes 10 value) [
  | none ↦ none
  | some more ↦ some (out ++ more)
]

unfoldable pub append_key : Bytes → ℕ → ℕ → Option Bytes
append_key out field wire = append_varint out (bit_or (field * 2 ^ 3 % 2 ^ 64) wire)

unfoldable pub append_bytes : Bytes → ℕ → Bytes → Option Bytes
append_bytes out field value = elim (append_key out field wire_bytes) [
  | none ↦ none
  | some keyed ↦ elim (append_varint keyed (length value)) [
    | none ↦ none
    | some sized ↦ some (sized ++ value)
  ]
]

-- `(0..64).step_by(7)`, from a number of rounds and the first shift.
abbrev pub shifts : ℕ → ℕ → List ℕ
shifts zero s = []
shifts (suc rounds) s = s ∷ shifts rounds (s + 7)

pub read_varint_from : List ℕ → ℕ → Bytes → Result WireError (ℕ × Bytes)
read_varint_from [] value raw = err varint_overflow
read_varint_from (shift ∷ more) value [] = err eof_in_varint
read_varint_from (shift ∷ more) value (byte ∷ rest) =
    let value' = bit_or value (bit_and byte 0x7f * 2 ^ shift % 2 ^ 64) in
    let continued = read_varint_from more value' rest in
    if bit_and byte 0x80 == 0 then ok (value', rest) else continued

-- The value, and what `raw` points at afterwards.
pub read_varint : Bytes → Result WireError (ℕ × Bytes)
read_varint raw = read_varint_from (shifts 10 0) 0 raw

pub read_key : Bytes → Result WireError ((ℕ × ℕ) × Bytes)
read_key raw = do (key, rest) ← read_varint raw; ok ((key / 2 ^ 3, bit_and key 0x07 % 256), rest)

pub read_len : Bytes → WireError → Result WireError (ℕ × Bytes)
read_len raw eof = do
  (len, rest) ← read_varint raw
  if ltb (length rest) len then err eof else ok (len, rest)

pub read_bytes : Bytes → Result WireError (Bytes × Bytes)
read_bytes raw = do (len, rest) ← read_len raw eof_in_bytes; ok (take len rest, drop len rest)

pub read_string : Bytes → Result WireError (Bytes × Bytes)
read_string raw = do
  (bytes, rest) ← read_bytes raw
  if is_utf8 bytes then ok (bytes, rest) else err invalid_utf8

pub skip : Bytes → ℕ → Result WireError Bytes
skip raw len = if ltb (length raw) len then err eof_in_field else ok (drop len raw)

pub skip_value : ℕ → Bytes → Result WireError Bytes
skip_value wire raw =
    if wire == wire_varint
    then (read_varint raw >>= λ (value, rest). ok rest)
    else if wire == wire_64bit
    then skip raw 8
    else if wire == wire_bytes
    then (read_len raw eof_in_field >>= λ (len, rest). skip rest len)
    else if wire == wire_32bit
    then skip raw 4
    else err (unsupported_wire_type wire)
