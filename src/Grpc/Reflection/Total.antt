-- ===== src/Grpc/Reflection/Total.antt =====
-- src/grpc/reflection.rs: the messages of the reflection service are parsed within the fuel.
use fetch.Common.{
  ℕ, ◌<◌, ◌≢◌, Bool-cases, ◌&&◌, Option, none, some, List, [], Bytes, inl, inr, length, ◌==◌,
  Result, ok, err, ◌>>=◌, arith,
}
use fetch.Grpc.Wire.{
  WireError, out_of_fuel, missing_list, missing_descriptor, read_bytes, read_string, skip_value,
}
use fetch.Grpc.Wire.Reads.{Reads, Skips, read_bytes-Reads, read_string-Reads, skip_value-Skips}
use fetch.Grpc.Reflection.{
  Next, go_on, skip_field, service_name_field, service_list_field, descriptor_list_field,
  list_response_field, file_descriptor_field, refused, parse_reflection_service_name,
  parse_reflection_service_list, parse_reflection_descriptor_list, parse_reflection_list_response,
  parse_reflection_file_descriptor_response, or_missing, without_name,
}
use fetch.Grpc.Reflection.Loop.{Settles, IsReal, fields_loop-IsReal}

-- What follows a read, a parse of what was read, and a skip.
module _ {ℓ κ μ} {S : Type ℓ} {A : Type κ} {X : Type μ} (n : ℕ) where
  read-Settles :
      (k : X × Bytes → Result WireError (Next S A)) (r : Result WireError (X × Bytes))
      → Reads n r
      → ((x : X) (rest : Bytes) → length rest < n → Settles n (k (x, rest)))
      → Settles n (r >>= k)
  read-Settles k (ok (x, rest)) h f = f x rest h
  read-Settles k (err e) h f = h

  parse-Settles :
      (k : X → Result WireError (Next S A)) (r : Result WireError X)
      → IsReal r
      → ((x : X) → Settles n (k x))
      → Settles n (r >>= k)
  parse-Settles k (ok x) h f = f x
  parse-Settles k (err e) h f = h

skip_field-Settles {ℓ κ} :
    {S : Type ℓ} (A : Type κ) (s : S) (wire : ℕ) (raw : Bytes)
    → Settles (length raw) (skip_field {A = A} s wire raw)
unfolding skip_field
skip_field-Settles {S} A s wire raw = go (skip_value wire raw) (skip_value-Skips wire raw)
  where
    go :
        (r : Result WireError Bytes)
        → Skips (length raw) r
        → Settles {S = S} {A = A} (length raw) (r >>= λ rest. ok (go_on s rest))
    go (ok rest) h = h
    go (err e) h = h

-- The fields of each message, and the messages.
service_name_field-Settles :
    (s : Unit {0}) (number wire : ℕ) (raw : Bytes)
    → Settles (length raw) (service_name_field s number wire raw)
unfolding service_name_field
service_name_field-Settles s number wire raw = elim (Bool-cases (number == 1 && wire == 2)) [
  | inl a ↦ rw a (read-Settles _ _ (read_string raw) (read_string-Reads raw) (λ name rest h. tt))
  | inr a ↦ rw a (skip_field-Settles Bytes s wire raw)
]

pub parse_reflection_service_name-IsReal :
    (raw : Bytes) → IsReal (parse_reflection_service_name raw)
unfolding parse_reflection_service_name
parse_reflection_service_name-IsReal raw =
    fields_loop-IsReal service_name_field without_name service_name_field-Settles (λ s e. cc)
      (length raw) tt raw (omega arith)

service_list_field-Settles :
    (names : List Bytes) (number wire : ℕ) (raw : Bytes)
    → Settles (length raw) (service_list_field names number wire raw)
unfolding service_list_field
service_list_field-Settles names number wire raw = elim (Bool-cases (number == 1 && wire == 2)) [
  | inl a ↦ rw a (
      read-Settles _ _ (read_bytes raw) (read_bytes-Reads raw) (λ bytes rest h.
        parse-Settles _ _ (parse_reflection_service_name bytes)
          (parse_reflection_service_name-IsReal bytes) (λ name. omega arith)))
  | inr a ↦ rw a (skip_field-Settles (List Bytes) names wire raw)
]

pub parse_reflection_service_list-IsReal :
    (raw : Bytes) → IsReal (parse_reflection_service_list raw)
unfolding parse_reflection_service_list
parse_reflection_service_list-IsReal raw =
    fields_loop-IsReal service_list_field ok service_list_field-Settles (λ s. tt) (length raw) []
      raw (omega arith)

descriptor_list_field-Settles :
    (files : List Bytes) (number wire : ℕ) (raw : Bytes)
    → Settles (length raw) (descriptor_list_field files number wire raw)
unfolding descriptor_list_field
descriptor_list_field-Settles files number wire raw = elim (Bool-cases (number == 1 && wire == 2)) [
  | inl a ↦
      rw a (read-Settles _ _ (read_bytes raw) (read_bytes-Reads raw) (λ bytes rest h. omega arith))
  | inr a ↦ rw a (skip_field-Settles (List Bytes) files wire raw)
]

pub parse_reflection_descriptor_list-IsReal :
    (raw : Bytes) → IsReal (parse_reflection_descriptor_list raw)
unfolding parse_reflection_descriptor_list
parse_reflection_descriptor_list-IsReal raw =
    fields_loop-IsReal descriptor_list_field ok descriptor_list_field-Settles (λ s. tt) (length raw)
      [] raw (omega arith)

refused-Settles :
    (raw : Bytes) → Settles {S = Option (List Bytes)} {A = List Bytes} (length raw) (refused raw)
unfolding refused
refused-Settles raw =
    read-Settles _ _ (read_bytes raw) (read_bytes-Reads raw) (λ bytes rest h e. cc)

list_response_field-Settles :
    (names : Option (List Bytes)) (number wire : ℕ) (raw : Bytes)
    → Settles (length raw) (list_response_field names number wire raw)
unfolding list_response_field
list_response_field-Settles names number wire raw = elim (Bool-cases (number == 6 && wire == 2)) [
  | inl a ↦ rw a (
      read-Settles _ _ (read_bytes raw) (read_bytes-Reads raw) (λ bytes rest h.
        parse-Settles _ _ (parse_reflection_service_list bytes)
          (parse_reflection_service_list-IsReal bytes) (λ name. omega arith)))
  | inr a ↦ rw a (elim (Bool-cases (number == 7 && wire == 2)) [
    | inl b ↦ rw b (refused-Settles raw)
    | inr b ↦ rw b (skip_field-Settles (List Bytes) names wire raw)
  ])
]

or_missing-IsReal :
    (e : WireError) (found : Option (List Bytes)) → e ≢ out_of_fuel → IsReal (or_missing e found)
or_missing-IsReal e none h = h
or_missing-IsReal e (some x) h = tt

-- Parsing a list of services always ends within the fuel, with the services or an error of the source.
pub parse_reflection_list_response-IsReal :
    (raw : Bytes) → IsReal (parse_reflection_list_response raw)
unfolding parse_reflection_list_response
parse_reflection_list_response-IsReal raw =
    fields_loop-IsReal list_response_field (or_missing missing_list) list_response_field-Settles
      (λ s. or_missing-IsReal missing_list s (λ e. cc)) (length raw) none raw (omega arith)

file_descriptor_field-Settles :
    (files : Option (List Bytes)) (number wire : ℕ) (raw : Bytes)
    → Settles (length raw) (file_descriptor_field files number wire raw)
unfolding file_descriptor_field
file_descriptor_field-Settles files number wire raw = elim (Bool-cases (number == 4 && wire == 2)) [
  | inl a ↦ rw a (
      read-Settles _ _ (read_bytes raw) (read_bytes-Reads raw) (λ bytes rest h.
        parse-Settles _ _ (parse_reflection_descriptor_list bytes)
          (parse_reflection_descriptor_list-IsReal bytes) (λ listed. omega arith)))
  | inr a ↦ rw a (elim (Bool-cases (number == 7 && wire == 2)) [
    | inl b ↦ rw b (refused-Settles raw)
    | inr b ↦ rw b (skip_field-Settles (List Bytes) files wire raw)
  ])
]

-- Parsing a file descriptor response always ends within the fuel, with the files or an error of the
-- source.
pub parse_reflection_file_descriptor_response-IsReal :
    (raw : Bytes) → IsReal (parse_reflection_file_descriptor_response raw)
unfolding parse_reflection_file_descriptor_response
parse_reflection_file_descriptor_response-IsReal raw =
    fields_loop-IsReal file_descriptor_field (or_missing missing_descriptor)
      file_descriptor_field-Settles (λ s. or_missing-IsReal missing_descriptor s (λ e. cc))
      (length raw) none raw (omega arith)
