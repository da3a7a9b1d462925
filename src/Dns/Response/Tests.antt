-- ===== src/Dns/Response/Tests.antt =====
-- src/dns/wire.rs: a response with an alias, to a query for a.bc.
use fetch.Common.{◌≡◌, refl, ◌≢◌, none, [], ◌∷◌, ◌++◌, Bytes, ok, err, arith}
use fetch.Common.Text.{eq_ignore_ascii_case, to_ascii_lowercase}
use fetch.Common.Utf8.{is_utf8, from_utf8_lossy, lossy, lead}
use fetch.Dns.Wire.{
  read_name, name_loop, name_round, follow_pointer, read_label, read_u16, read_u32, trim_end_dots,
  write_name, write_labels, split_dots, build_query, write_opt_record, query_header, not_a_response,
  out_of_fuel,
}
use fetch.Dns.Response.{
  ResourceRecord, parse_response, parse_response_inner, check_header, check_question, read_record,
  read_records, names_equal, is_reachable, is_followed, cname_target, cname_step, cname_round,
  cname_loop, relevant_records, retain_reachable,
}
use fetch.Dns.Response.Accepted.{Accepted, parse_response-Accepted}
use fetch.Dns.Response.Ends.{parse_response_inner-ends}
use fetch.Dns.Response.Refused.{parse_response-build_query}

abbrev host : Bytes
host = b'a' ∷ b'.' ∷ b'b' ∷ b'c' ∷ []

abbrev question : Bytes
question = 1 ∷ b'a' ∷ 2 ∷ b'b' ∷ b'c' ∷ 0 ∷ 0 ∷ 1 ∷ 0 ∷ 1 ∷ []

abbrev alias_answer : Bytes
alias_answer = 0xc0 ∷ 12 ∷ 0 ∷ 5 ∷ 0 ∷ 1 ∷ 0 ∷ 0 ∷ 0 ∷ 60 ∷ 0 ∷ 3 ∷ 1 ∷ b'X' ∷ 0 ∷ []

abbrev address_answer : Bytes
address_answer = 1 ∷ b'x' ∷ 0 ∷ 0 ∷ 1 ∷ 0 ∷ 1 ∷ 0 ∷ 0 ∷ 0 ∷ 60 ∷ 0 ∷ 2 ∷ 7 ∷ 8 ∷ []

abbrev other_answer : Bytes
other_answer = 1 ∷ b'y' ∷ 0 ∷ 0 ∷ 1 ∷ 0 ∷ 1 ∷ 0 ∷ 0 ∷ 0 ∷ 60 ∷ 0 ∷ 1 ∷ 9 ∷ []

abbrev response : Bytes
response =
    0x12
    ∷ 0x34
    ∷ 0x81
    ∷ 0x80
    ∷ 0
    ∷ 1
    ∷ 0
    ∷ 3
    ∷ 0
    ∷ 0
    ∷ 0
    ∷ 0
    ∷ (question ++ (alias_answer ++ (address_answer ++ other_answer)))

abbrev alias : ResourceRecord
alias = record {
  name = b'a' ∷ b'.' ∷ b'b' ∷ b'c' ∷ b'.' ∷ [];
  typ = 5;
  class = 1;
  ttl = 60;
  data_offset = 34;
  contents = 1 ∷ b'X' ∷ 0 ∷ [];
}

abbrev address : ResourceRecord
address = record {
  name = b'x' ∷ b'.' ∷ [];
  typ = 1;
  class = 1;
  ttl = 60;
  data_offset = 50;
  contents = 7 ∷ 8 ∷ [];
}

-- The answer of another name is dropped.
answer_with_alias : parse_response response 0x1234 host 1 1 ≡ ok (alias ∷ address ∷ [])
unfolding parse_response parse_response_inner check_header check_question read_record read_records
    names_equal is_reachable is_followed cname_target cname_step cname_round cname_loop
    relevant_records retain_reachable read_name name_loop name_round follow_pointer read_label
    read_u16 read_u32 trim_end_dots eq_ignore_ascii_case to_ascii_lowercase from_utf8_lossy lossy
    lead
answer_with_alias = refl

parse_response-Accepted_example : Accepted response 0x1234 host 1 1 (alias ∷ address ∷ [])
parse_response-Accepted_example = parse_response-Accepted response 0x1234 host 1 1 answer_with_alias

parse_response_inner-ends_example : parse_response_inner response none host 1 1 ≢ err out_of_fuel
parse_response_inner-ends_example = parse_response_inner-ends response none host 1 1

relevant_alias : relevant_records response host 1 (address ∷ alias ∷ []) ≡ ok (address ∷ alias ∷ [])
unfolding names_equal is_reachable is_followed cname_target cname_step cname_round cname_loop
    relevant_records retain_reachable read_name name_loop name_round follow_pointer read_label
    read_u16 trim_end_dots eq_ignore_ascii_case to_ascii_lowercase from_utf8_lossy lossy lead
relevant_alias = refl

abbrev query : Bytes
query =
    query_header 0x1234
    ++ (1 ∷ b'a' ∷ 2 ∷ b'b' ∷ b'c' ∷ 0 ∷ 0 ∷ 28 ∷ 0 ∷ 1 ∷ 0 ∷ 0 ∷ 41 ∷ 4 ∷ 208 ∷ 0 ∷ 0 ∷ 0 ∷ 0 ∷ 0
        ∷ 0 ∷ [])

build_query-host : build_query 0x1234 host 28 ≡ ok query
unfolding build_query write_opt_record write_name write_labels trim_end_dots split_dots
build_query-host = refl

parse_response-build_query_example : parse_response query 0x1234 host 28 1 ≡ err not_a_response
unfolding is_utf8
parse_response-build_query_example =
    parse_response-build_query 0x1234 0x1234 host 28 host 28 1 (omega arith) (omega arith) refl
      build_query-host
