-- ===== src/Dns/Response/Ends.antt =====
-- src/dns/wire.rs: parsing a response ends.
use fetch.Common.{
  ℕ, zero, suc, ◌+◌, ◌≢◌, inl, inr, Bool, Bool-cases, true, false, Bytes, length, Option, ◌==◌, ltb,
  if◌then◌else◌, err, >>=-ne-err, arith,
}
use fetch.Dns.Wire.{unexpected_question_count, out_of_fuel, read_name, read_u16, read_u32}
use fetch.Dns.Wire.Bounds.{read_name-ends, read_u16-ends, read_u32-ends}
use fetch.Dns.Response.{
  read_record, read_records, check_header, check_question, parse_response_inner, id_differs,
}
use fetch.Dns.Response.Loop.{relevant_records-ends}

read_record-ends : (raw : Bytes) (offset : ℕ) → read_record raw offset ≢ err out_of_fuel
unfolding read_record
read_record-ends raw offset =
    >>=-ne-err (read_name raw offset) _ (read_name-ends raw offset) λ named a.
      >>=-ne-err (read_u16 raw named.1) _ (read_u16-ends raw named.1) λ typ b.
        >>=-ne-err (read_u16 raw (named.1 + 2)) _ (read_u16-ends raw (named.1 + 2)) λ class c.
          >>=-ne-err (read_u32 raw (named.1 + 4)) _ (read_u32-ends raw (named.1 + 4)) λ ttl d.
            >>=-ne-err (read_u16 raw (named.1 + 8)) _ (read_u16-ends raw (named.1 + 8))
              λ rdlen e q. ground arith

read_records-ends :
    (count : ℕ) (raw : Bytes) (offset : ℕ) → read_records count raw offset ≢ err out_of_fuel
unfolding read_records
read_records-ends zero raw offset = λ q. cc
read_records-ends (suc count) raw offset =
    >>=-ne-err (read_record raw offset) _ (read_record-ends raw offset) λ first a.
      >>=-ne-err (read_records count raw first.1) _ (read_records-ends count raw first.1)
        λ rest b q. cc

check_header-ends :
    (raw : Bytes) (expected_id : Option ℕ) → check_header raw expected_id ≢ err out_of_fuel
unfolding check_header
check_header-ends raw expected_id = elim (Bool-cases (ltb (length raw) 12)) [
  | inl a ↦ rw a (λ q. cc)
  | inr a ↦ rw a (elim (Bool-cases (id_differs raw expected_id)) [
    | inl b ↦ rw b (λ q. cc)
    | inr b ↦ rw b (>>=-ne-err (read_u16 raw 2) _ (read_u16-ends raw 2) λ flags c q. ground arith)
  ])
]

check_question-ends :
    (raw name : Bytes) (typ class : ℕ) → check_question raw name typ class ≢ err out_of_fuel
unfolding check_question
check_question-ends raw name typ class =
    >>=-ne-err (read_name raw 12) _ (read_name-ends raw 12) λ question a.
      >>=-ne-err (read_u16 raw question.1) _ (read_u16-ends raw question.1) λ t b.
        >>=-ne-err (read_u16 raw (question.1 + 2)) _ (read_u16-ends raw (question.1 + 2))
          λ c d q. ground arith

-- Parsing a response ends within the fuel, whatever pointers and aliases it has: with answers or with
-- an error of the source.
pub parse_response_inner-ends :
    (raw : Bytes) (expected_id : Option ℕ) (name : Bytes) (typ class : ℕ)
    → parse_response_inner raw expected_id name typ class ≢ err out_of_fuel
unfolding parse_response_inner
parse_response_inner-ends raw expected_id name typ class =
    >>=-ne-err (check_header raw expected_id) _ (check_header-ends raw expected_id) λ checked a.
      >>=-ne-err (read_u16 raw 4) _ (read_u16-ends raw 4) λ questions b.
        >>=-ne-err (read_u16 raw 6) _ (read_u16-ends raw 6) λ count c.
          >>=-ne-err
            (if questions == 1
              then check_question raw name typ class
              else err unexpected_question_count)
            _ (if_question (questions == 1))
            λ place d.
              >>=-ne-err (read_records count raw place) _ (read_records-ends count raw place)
                λ records e. relevant_records-ends raw name class records
  where
    if_question :
        (one : Bool)
        → (if one then check_question raw name typ class else err unexpected_question_count)
          ≢ err out_of_fuel
    if_question true = check_question-ends raw name typ class
    if_question false = λ q. cc
