-- ===== src/Dns/Svcb/Tests.antt =====
-- src/dns/svcb.rs: a record with a protocol, a port and mandatory keys.
use fetch.Common.{◌≡◌, refl, ◌↔◌, true, some, List, [], ◌∷◌, ◌++◌, replicate, Bytes, arith}
use fetch.Common.Text.{codes, bytes_eq}
use fetch.Common.Decimal.{to_string, digits_within}
use fetch.Common.Utf8.{is_utf8, from_utf8_lossy, lossy, lead}
use fetch.Dns.Svcb.{
  SvcbRecord, SvcParam, is_usable, unpack_labels, unpack_dns_name, read_params, chunks_from,
  parse_mandatory, alpn_loop, parse_alpn, apply_param, apply_params, is_supported, unsupported_keys,
  bare_record, record_from_params, parse_rdata,
}
use fetch.Dns.Svcb.Format.{Notation, word_to_string, format_svc_param, format_params, format_rdata}
use fetch.Dns.Svcb.Ipv6.{
  join, ipv4_to_string, segment_digits, segments, longest_zeros, segments_to_string, ipv6_to_string,
}
use fetch.Dns.Svcb.Params.{AllSupported, parse_rdata-AllSupported}
use fetch.Dns.Svcb.RoundTrip.{write_rdata, parse_rdata-write_rdata}

abbrev alpn : SvcParam
alpn = record { key = 1; value = 2 ∷ b'h' ∷ b'3' ∷ [] }

abbrev port : SvcParam
port = record { key = 3; value = 1 ∷ 0xbb ∷ [] }

abbrev mandatory : SvcParam
mandatory = record { key = 0; value = 0 ∷ 1 ∷ 0 ∷ 9 ∷ [] }

abbrev params : List SvcParam
params = mandatory ∷ alpn ∷ port ∷ []

abbrev raw : Bytes
raw = write_rdata 1 (codes "a" ∷ codes "bc" ∷ []) params

abbrev parsed : SvcbRecord
parsed = record (bare_record 1 (codes "a.bc.")) {
  alpn = codes "h3" ∷ [];
  port = some 443;
  mandatory = 1 ∷ 9 ∷ [];
  unsupported_mandatory = 9 ∷ [];
}

raw_read : parse_rdata raw ≡ some parsed
unfolding parse_rdata unpack_dns_name unpack_labels read_params record_from_params apply_params
    apply_param parse_mandatory parse_alpn alpn_loop chunks_from unsupported_keys is_supported
    from_utf8_lossy lossy lead is_utf8
raw_read = refl

parse_rdata-AllSupported_example : (is_usable parsed ≡ true) ↔ AllSupported (1 ∷ 9 ∷ [])
parse_rdata-AllSupported_example = parse_rdata-AllSupported raw raw_read

parse_rdata-write_rdata_example : parse_rdata raw ≡ record_from_params 1 (codes "a.bc.") params
unfolding is_utf8
parse_rdata-write_rdata_example =
    parse_rdata-write_rdata 1 (codes "a" ∷ codes "bc" ∷ []) params (omega arith) (omega arith)
      (refl, (refl, tt)) (omega arith)

abbrev notation : Notation
notation = record { base64 = λ raw. raw; quoted = λ raw. raw }

raw_formatted : format_rdata notation raw ≡ some (codes "1 a.bc. Mandatory=1,9 ALPN=h3 Port=443")
unfolding format_rdata format_params format_svc_param word_to_string join to_string unpack_dns_name
    unpack_labels parse_alpn alpn_loop chunks_from from_utf8_lossy lossy lead is_utf8
raw_formatted = refl

two_runs :
    ipv6_to_string (0x20 ∷ 0x01 ∷ 0x0d ∷ 0xb8 ∷ replicate 4 0 ++ (0 ∷ 1 ∷ replicate 6 0))
    ≡ codes "2001:db8:0:0:1::"
unfolding ipv6_to_string segments_to_string longest_zeros segments segment_digits join bytes_eq
two_runs = refl

mapped :
    ipv6_to_string (replicate 10 0 ++ (0xff ∷ 0xff ∷ 10 ∷ 0 ∷ 0 ∷ 1 ∷ [])) ≡ codes "::ffff:10.0.0.1"
unfolding ipv6_to_string ipv4_to_string join bytes_eq to_string digits_within
mapped = refl

unspecified : ipv6_to_string (replicate 16 0) ≡ codes "::"
unfolding ipv6_to_string segments_to_string longest_zeros segments segment_digits join bytes_eq
unspecified = refl
