-- ===== src/Dns/Response.antt =====
-- src/dns/wire.rs: what a response must be to be taken, and which of its answers are.
pub mod Reach
pub mod Loop
pub mod Accepted
pub mod Ends
pub mod Refused
pub mod Relevant
mod Tests
use Prim.Native.Nat.{bit_and}
use fetch.Common.{
  ℕ, zero, suc, ◌+◌, Bool, true, false, not, ◌&&◌, ◌||◌, Option, none, some, List, [], ◌∷◌, ◌++◌,
  Bytes, length, is_empty, take, drop, ltb, ◌==◌, if◌then◌else◌, Result, ok, err, ◌>>=◌,
}
use fetch.Common.Text.{eq_ignore_ascii_case, codes}
use fetch.Dns.Wire.{
  WireError, short_response, mismatched_id, not_a_response, unexpected_opcode, truncated_response,
  no_such_host, unexpected_question_count, mismatched_question, short_resource, invalid_cname,
  out_of_fuel, read_u16, read_u32, read_name, trim_end_dots,
}

abbrev pub type_cname : ℕ
type_cname = 5

abbrev pub flag_response : ℕ
flag_response = 0x8000

abbrev pub flag_opcode : ℕ
flag_opcode = 0x7800

abbrev pub flag_truncated : ℕ
flag_truncated = 0x0200

pub record ResourceRecord : Type 0 where
  pub name : Bytes
  pub typ : ℕ
  pub class : ℕ
  pub ttl : ℕ
  pub data_offset : ℕ
  pub contents : Bytes

pub is_truncated : WireError → Bool
is_truncated truncated_response = true
is_truncated _ = false

pub rcode_name : ℕ → Bytes
rcode_name status =
    if status == 1
    then codes "FormatError"
    else if status == 2
    then codes "ServerFailure"
    else if status == 3
    then codes "NXDomain"
    else if status == 4
    then codes "NotImplemented"
    else if status == 5
    then codes "Refused"
    else []

pub names_equal : Bytes → Bytes → Bool
names_equal left right = eq_ignore_ascii_case (trim_end_dots left) (trim_end_dots right)

-- An answer, and where the next one starts.
pub read_record : Bytes → ℕ → Result WireError (ResourceRecord × ℕ)
read_record raw offset = do
  (name, next) ← read_name raw offset
  typ ← read_u16 raw next
  class ← read_u16 raw (next + 2)
  ttl ← read_u32 raw (next + 4)
  rdlen ← read_u16 raw (next + 8)
  if ltb (length raw) (next + 10 + rdlen)
      then err short_resource
      else ok (
        record {
          name = name;
          typ = typ;
          class = class;
          ttl = ttl;
          data_offset = next + 10;
          contents = take rdlen (drop (next + 10) raw);
        },
        next + 10 + rdlen,
      )

pub read_records : ℕ → Bytes → ℕ → Result WireError (List ResourceRecord)
read_records zero raw offset = ok []
read_records (suc count) raw offset = do
  (first, next) ← read_record raw offset
  rest ← read_records count raw next
  ok (first ∷ rest)

-- `reachable.iter().any(|name| names_equal(name, wanted))`
pub is_reachable : List Bytes → Bytes → Bool
is_reachable [] wanted = false
is_reachable (name ∷ names) wanted = names_equal name wanted || is_reachable names wanted

-- `continue` for a record that is no CNAME of a reachable name.
pub is_followed : ℕ → List Bytes → ResourceRecord → Bool
is_followed expected_class reachable r =
    r.class == expected_class && (r.typ == type_cname && is_reachable reachable r.name)

pub cname_target : Bytes → ResourceRecord → Result WireError Bytes
cname_target raw r = read_name raw r.data_offset >>= λ read.
    if read.1 == r.data_offset + length r.contents then ok read.0 else err invalid_cname

-- What a record of the loop does to the reachable names and to `changed`.
pub cname_step :
    Bytes → ℕ → ResourceRecord → List Bytes → Bool → Result WireError (List Bytes × Bool)
cname_step raw expected_class r reachable changed =
    if is_followed expected_class reachable r
    then (cname_target raw r >>= λ target.
        if is_reachable reachable target
        then ok (reachable, changed)
        else ok (reachable ++ target ∷ [], true))
    else ok (reachable, changed)

pub cname_round :
    Bytes → ℕ → List ResourceRecord → List Bytes → Bool → Result WireError (List Bytes × Bool)
cname_round raw expected_class [] reachable changed = ok (reachable, changed)
cname_round raw expected_class (r ∷ records) reachable changed =
    cname_step raw expected_class r reachable changed >>= λ step.
    cname_round raw expected_class records step.0 step.1

pub cname_loop : ℕ → Bytes → ℕ → List ResourceRecord → List Bytes → Result WireError (List Bytes)
cname_loop zero raw expected_class records reachable = err out_of_fuel
cname_loop (suc fuel) raw expected_class records reachable =
    elim (cname_round raw expected_class records reachable false) [
      | err e ↦ err e
      | ok (found, true) ↦ cname_loop fuel raw expected_class records found
      | ok (found, false) ↦ ok found
    ]

-- `retain`
pub retain_reachable : List Bytes → List ResourceRecord → List ResourceRecord
retain_reachable reachable [] = []
retain_reachable reachable (r ∷ records) =
    let rest = retain_reachable reachable records in
    if is_reachable reachable r.name then r ∷ rest else rest

-- Each round but the last one makes the target of another record reachable.
pub relevant_records :
    Bytes → Bytes → ℕ → List ResourceRecord → Result WireError (List ResourceRecord)
relevant_records raw expected_name expected_class records =
    cname_loop (suc (length records)) raw expected_class records (expected_name ∷ [])
    >>= λ reachable. ok (retain_reachable reachable records)

abbrev pub id_differs : Bytes → Option ℕ → Bool
id_differs raw none = false
id_differs raw (some expected_id) = elim (read_u16 raw 0) [
  | err e ↦ false
  | ok id ↦ not (id == expected_id)
]

pub check_header : Bytes → Option ℕ → Result WireError (Unit {0})
check_header raw expected_id =
    if ltb (length raw) 12
    then err short_response
    else if id_differs raw expected_id
    then err mismatched_id
    else (read_u16 raw 2 >>= λ flags.
        if bit_and flags flag_response == 0
        then err not_a_response
        else if not (bit_and flags flag_opcode == 0)
        then err unexpected_opcode
        else if not (bit_and flags flag_truncated == 0)
        then err truncated_response
        else if not (bit_and flags 0x000f == 0)
        then err (no_such_host (rcode_name (bit_and flags 0x000f)))
        else ok tt)

-- The question that follows the header, and the place behind it.
pub check_question : Bytes → Bytes → ℕ → ℕ → Result WireError ℕ
check_question raw expected_name expected_type expected_class = do
  (question_name, next) ← read_name raw 12
  question_type ← read_u16 raw next
  question_class ← read_u16 raw (next + 2)
  if names_equal question_name expected_name
        && (question_type == expected_type && question_class == expected_class)
      then ok (next + 4)
      else err mismatched_question

pub parse_response_inner : Bytes → Option ℕ → Bytes → ℕ → ℕ → Result WireError (List ResourceRecord)
parse_response_inner raw expected_id expected_name expected_type expected_class = do
  checked ← check_header raw expected_id
  question_count ← read_u16 raw 4
  answer_count ← read_u16 raw 6
  offset ←
      if question_count == 1
      then check_question raw expected_name expected_type expected_class
      else err unexpected_question_count
  records ← read_records answer_count raw offset
  relevant_records raw expected_name expected_class records

pub parse_response : Bytes → ℕ → Bytes → ℕ → ℕ → Result WireError (List ResourceRecord)
parse_response raw expected_id expected_name expected_type expected_class =
    parse_response_inner raw (some expected_id) expected_name expected_type expected_class
