-- ===== src/Dns/Svcb/Lookup/Tests.antt =====
-- src/dns/svcb.rs: a record in the generic notation.
use fetch.Common.{◌≡◌, refl, none, some, [], ◌∷◌, arith}
use fetch.Common.Text.{codes, bytes_eq}
use fetch.Common.Chars.{is_whitespace}
use fetch.Common.Decimal.{is_ascii_digit, value_from}
use fetch.Common.Parse.{all_digits, digits_below, parse_below}
use fetch.Dns.Response.{ResourceRecord}
use fetch.Dns.Svcb.{
  bare_record, unpack_labels, unpack_dns_name, read_params, apply_params, unsupported_keys,
  record_from_params, parse_rdata,
}
use fetch.Dns.Svcb.Format.{hex_digit, hex_decode}
use fetch.Dns.Svcb.Lookup.{
  DohRecord, pieces, nonempty, split_whitespace, concat, generic_fields, parse_generic_rdata,
  doh_record, doh_https_records, udp_record, udp_https_records,
}
use fetch.Dns.Svcb.Lookup.Agree.{all_written, doh_https_records-all_written}
use fetch.Dns.Svcb.Lookup.Generic.{write_generic, parse_generic_rdata-write_generic}

parse_generic_rdata-write_generic_example :
    parse_generic_rdata (write_generic (0 ∷ (0xa7 ∷ []))) ≡ some (0 ∷ (0xa7 ∷ []))
parse_generic_rdata-write_generic_example =
    parse_generic_rdata-write_generic 0 (0xa7 ∷ []) (omega arith) (omega arith)

abbrev over_https : DohRecord
over_https = record { answer_type = 65; contents = codes " \\# 3  00 0100 "; ttl = some 60 }

abbrev other : DohRecord
other = record { answer_type = 1; contents = codes "1.2.3.4"; ttl = none }

https_taken :
    doh_https_records (other ∷ (over_https ∷ []))
    ≡ record (bare_record 1 (codes ".")) { ttl = some 60 } ∷ []
unfolding doh_https_records doh_record parse_generic_rdata generic_fields concat split_whitespace
    nonempty pieces is_whitespace bytes_eq parse_below digits_below all_digits is_ascii_digit
    value_from hex_decode hex_digit parse_rdata unpack_dns_name unpack_labels read_params
    record_from_params apply_params unsupported_keys
https_taken = refl

abbrev answer : ResourceRecord
answer = record {
  name = codes "a.";
  typ = 65;
  class = 1;
  ttl = 9;
  data_offset = 30;
  contents = 0 ∷ (2 ∷ (0 ∷ []));
}

udp_taken :
    udp_https_records (record answer { class = 3 } ∷ (answer ∷ []))
    ≡ record (bare_record 2 (codes ".")) { ttl = some 9 } ∷ []
unfolding udp_https_records udp_record parse_rdata unpack_dns_name unpack_labels read_params
    record_from_params apply_params unsupported_keys
udp_taken = refl

doh_https_records-all_written_example :
    doh_https_records (all_written (answer ∷ [])) ≡ udp_https_records (answer ∷ [])
doh_https_records-all_written_example =
    doh_https_records-all_written (answer ∷ []) (refl, omega arith, omega arith, tt)
