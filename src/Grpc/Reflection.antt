-- ===== src/Grpc/Reflection.antt =====
-- src/grpc/reflection.rs: the messages of the reflection service. Texts are their UTF-8 bytes.
mod Loop
pub mod Total
pub mod Services
mod Tests
use Prim.Native.Nat.{bit_and}
use fetch.Common.{
  ◌-◌, drop, ltb, ℕ, zero, suc, ◌^◌, Bool, true, false, ◌&&◌, Option, none, some, List, [], ◌∷◌,
  ◌++◌, Bytes, length, leb, ◌==◌, if◌then◌else◌, Result, ok, err, ◌>>=◌, or_err,
}
use fetch.Grpc.Wire.{
  shifts, WireError, missing_list, missing_service_name, missing_descriptor, reflection,
  out_of_fuel, ReflectionErrorResponse, wire_varint, wire_bytes, append_bytes, read_varint,
  read_key, read_bytes, read_string, skip_value,
}

-- What the body of a `while !raw.is_empty()` loop leaves: its state and the bytes that `raw` points at,
-- or the value that it returns.
pub data Next {ℓ κ} (S : Type ℓ) (A : Type κ) : Type (ℓ ⊔ κ) where
  go_on : S → Bytes → Next S A
  return : A → Next S A

-- A key, and the field that it announces.
pub next_field {ℓ κ} :
    {S : Type ℓ} {A : Type κ}
    → (S → ℕ → ℕ → Bytes → Result WireError (Next S A))
    → S
    → Bytes
    → Result WireError (Next S A)
next_field field s raw = read_key raw >>= λ ((number, wire), rest). field s number wire rest

-- Such a loop over the fields of a message. `finish` is the code behind it.
pub fields_loop {ℓ κ} :
    {S : Type ℓ} {A : Type κ} (field : S → ℕ → ℕ → Bytes → Result WireError (Next S A))
    (finish : S → Result WireError A)
    → ℕ
    → S
    → Bytes
    → Result WireError A
fields_loop field finish fuel s [] = finish s
fields_loop field finish zero s (c ∷ cs) = err out_of_fuel
fields_loop field finish (suc fuel) s (c ∷ cs) = elim (next_field field s (c ∷ cs)) [
  | ok (go_on s' rest) ↦ fields_loop field finish fuel s' rest
  | ok (return a) ↦ ok a
  | err e ↦ err e
]

-- Every field takes a byte at least, so the length of the message is fuel enough.
abbrev pub fields {ℓ κ} :
    {S : Type ℓ} {A : Type κ}
    → (S → ℕ → ℕ → Bytes → Result WireError (Next S A))
    → (S → Result WireError A)
    → S
    → Bytes
    → Result WireError A
fields field finish s raw = fields_loop field finish (length raw) s raw

skip_field {ℓ κ} : {S : Type ℓ} {A : Type κ} → S → ℕ → Bytes → Result WireError (Next S A)
skip_field s wire raw = skip_value wire raw >>= λ rest. ok (go_on s rest)

service_name_field : Unit {0} → ℕ → ℕ → Bytes → Result WireError (Next (Unit {0}) Bytes)
unfolding skip_field
service_name_field s number wire raw =
    if number == 1 && wire == wire_bytes
    then (read_string raw >>= λ (name, rest). ok (return name))
    else skip_field s wire raw

abbrev without_name : Unit {0} → Result WireError Bytes
without_name s = err missing_service_name

pub parse_reflection_service_name : Bytes → Result WireError Bytes
parse_reflection_service_name = fields service_name_field without_name tt

service_list_field : List Bytes → ℕ → ℕ → Bytes → Result WireError (Next (List Bytes) (List Bytes))
service_list_field names number wire raw =
    if number == 1 && wire == wire_bytes
    then (read_bytes raw >>= λ (bytes, rest).
        parse_reflection_service_name bytes >>= λ name. ok (go_on (names ++ name ∷ []) rest))
    else skip_field names wire raw

pub parse_reflection_service_list : Bytes → Result WireError (List Bytes)
parse_reflection_service_list = fields service_list_field ok []

descriptor_list_field :
    List Bytes → ℕ → ℕ → Bytes → Result WireError (Next (List Bytes) (List Bytes))
descriptor_list_field files number wire raw =
    if number == 1 && wire == wire_bytes
    then (read_bytes raw >>= λ (bytes, rest). ok (go_on (files ++ bytes ∷ []) rest))
    else skip_field files wire raw

pub parse_reflection_descriptor_list : Bytes → Result WireError (List Bytes)
parse_reflection_descriptor_list = fields descriptor_list_field ok []

-- What `raw` points at behind a `read_varint` that may have failed.
varint_left : List ℕ → Bytes → Bytes
varint_left [] raw = raw
varint_left (shift ∷ more) [] = []
varint_left (shift ∷ more) (byte ∷ rest) =
    let left = varint_left more rest in if bit_and byte 0x80 == 0 then rest else left

-- And behind a `read_string` that may have failed.
string_left : Bytes → Bytes
unfolding varint_left
string_left raw = elim (read_varint raw) [
  | err e ↦ varint_left (shifts 10 0) raw
  | ok (len, rest) ↦ if ltb (length rest) len then rest else drop len rest
]

abbrev text_of : Result WireError (Bytes × Bytes) → Option Bytes
text_of (ok (text, rest)) = some text
text_of (err e) = none

abbrev code_of : Option ℕ → ℕ → Option ℕ
code_of code raw_code = if leb raw_code (2 ^ 31 - 1) then some raw_code else code

-- The loop of `parse_reflection_error`; every failure but that of a text ends it.
error_loop : ℕ → Option ℕ → Option Bytes → Bytes → Option ℕ × Option Bytes
error_loop zero code message raw = (code, message)
error_loop (suc fuel) code message raw = elim (read_key raw) [
  | err e ↦ (code, message)
  | ok ((number, wire), rest) ↦
      let with_code = elim (read_varint rest) as (λ x. Option ℕ × Option Bytes) [
        | err e ↦ (code, message)
        | ok (raw_code, rest') ↦ error_loop fuel (code_of code raw_code) message rest'
      ] in
      let with_message = error_loop fuel code (text_of (read_string rest)) (string_left rest) in
      let skipped = elim (skip_value wire rest) as (λ x. Option ℕ × Option Bytes) [
        | err e ↦ (code, message)
        | ok rest' ↦ error_loop fuel code message rest'
      ] in
      if number == 1 && wire == wire_varint
      then with_code
      else if number == 2 && wire == wire_bytes
      then with_message
      else skipped
]

abbrev response_of : Option ℕ × Option Bytes → ReflectionErrorResponse
response_of (code, none) = record { code = code; message = [] }
response_of (code, some message) = record { code = code; message = message }

pub parse_reflection_error : Bytes → ReflectionErrorResponse
unfolding error_loop string_left
parse_reflection_error raw = response_of (error_loop (length raw) none none raw)

refused {ℓ κ} : {S : Type ℓ} {A : Type κ} → Bytes → Result WireError (Next S A)
refused raw = read_bytes raw >>= λ (bytes, rest). err (reflection (parse_reflection_error bytes))

list_response_field :
    Option (List Bytes) → ℕ → ℕ → Bytes → Result WireError (Next (Option (List Bytes)) (List Bytes))
unfolding refused
list_response_field names number wire raw =
    if number == 6 && wire == wire_bytes
    then (read_bytes raw >>= λ (bytes, rest).
        parse_reflection_service_list bytes >>= λ listed. ok (go_on (some listed) rest))
    else if number == 7 && wire == wire_bytes
    then refused raw
    else skip_field names wire raw

abbrev or_missing : WireError → Option (List Bytes) → Result WireError (List Bytes)
or_missing e found = or_err found e

pub parse_reflection_list_response : Bytes → Result WireError (List Bytes)
parse_reflection_list_response = fields list_response_field (or_missing missing_list) none

file_descriptor_field :
    Option (List Bytes) → ℕ → ℕ → Bytes → Result WireError (Next (Option (List Bytes)) (List Bytes))
unfolding refused
file_descriptor_field files number wire raw =
    if number == 4 && wire == wire_bytes
    then (read_bytes raw >>= λ (bytes, rest).
        parse_reflection_descriptor_list bytes >>= λ listed. ok (go_on (some listed) rest))
    else if number == 7 && wire == wire_bytes
    then refused raw
    else skip_field files wire raw

pub parse_reflection_file_descriptor_response : Bytes → Result WireError (List Bytes)
parse_reflection_file_descriptor_response =
    fields file_descriptor_field (or_missing missing_descriptor) none

pub build_reflection_list_request : Option Bytes
build_reflection_list_request = append_bytes [] 7 (b'*' ∷ [])

pub build_reflection_symbol_request : Bytes → Option Bytes
build_reflection_symbol_request symbol = append_bytes [] 4 symbol
