-- ===== src/Http/Http3Cache/AltSvc/Tests.antt =====
-- src/http/http3_cache.rs: a header with an alternative and a withdrawn one.
use fetch.Common.{
  if◌then◌else◌, ℕ, ◌≡◌, refl, true, false, Option, none, some, List, [], ◌∷◌, ◌++◌, Bytes, arith,
}
use fetch.Common.Text.{codes, bytes_eq, ascii_lower, to_ascii_lowercase, eq_ignore_ascii_case}
use fetch.Common.Chars.{is_whitespace, trim, trim_start, trim_end}
use fetch.Dns.Wire.{trim_end_dots}
use fetch.Http.Http3Cache.{AltSvcUpdate}
use fetch.Http.Http3Cache.Prune.{Every}
use fetch.Http.Http3Cache.AltSvc.{
  Url, normalized_host, split_char, split_loop, split_quoted, split_once, ends_quoted, unquote,
  ma_part, stated_age, ma_parts, alt_svc_candidate, parse_alt_authority, parse_alt_svc_parts,
  parse_alt_svc_item, header_items, header_values, parse_alt_svc_headers,
}
use fetch.Http.Http3Cache.AltSvc.Parts.{HostOf}
use fetch.Http.Http3Cache.AltSvc.Advertised.{Advertised, parse_alt_svc_headers-Advertised}
use fetch.Http.Http3Cache.AltSvc.Written.{write_header}
use fetch.Http.Http3Cache.AltSvc.RoundTrip.{
  alternatives, withdrawn, parse_alt_svc_headers-write_header,
}

abbrev url : Url
url = record { host_str = some (codes "Example.com."); port = none }

-- The port of a URL is none where it is the one of the scheme.
abbrev parse_url : Bytes → Option Url
parse_url text =
    if bytes_eq text (codes "https://alt.example:9443/")
    then some (record { host_str = some (codes "alt.example"); port = some 9443 })
    else if bytes_eq text (codes "https://alt.example:443/")
    then some (record { host_str = some (codes "alt.example"); port = none })
    else none

abbrev pairs : List (ℕ × ℕ)
pairs = (443, 60) ∷ (8443, 0) ∷ []

abbrev update : AltSvcUpdate
update = record {
  clear = false;
  candidates = alternatives pairs (codes "example.com") 100;
  remove = withdrawn pairs (codes "example.com");
}

host_normalized : normalized_host url ≡ some (codes "example.com")
unfolding normalized_host trim_end_dots to_ascii_lowercase ascii_lower
host_normalized = refl

parse_alt_svc_headers-write_header_example :
    parse_alt_svc_headers parse_url url (some (write_header (443, 60) ((8443, 0) ∷ [])) ∷ []) 100
    ≡ some update
parse_alt_svc_headers-write_header_example =
    parse_alt_svc_headers-write_header parse_url url (codes "example.com") 100 (443, 60)
      ((8443, 0) ∷ []) host_normalized (omega arith) (omega arith)

abbrev other_host : Bytes
other_host = codes "h3=" ++ b'"' ∷ (codes "alt.example:9443" ++ b'"' ∷ codes ", clear, h2=a")

abbrev other_headers : List (Option Bytes)
other_headers = some other_host ∷ (none ∷ (some (codes " Clear") ∷ []))

abbrev other_update : AltSvcUpdate
other_update = record {
  clear = true;
  candidates = alt_svc_candidate (codes "alt.example") 9443 86400 100 ∷ [];
  remove = [];
}

other_taken :
    parse_alt_svc_headers parse_url url
      (some other_host ∷ (none ∷ (some (codes " Clear") ∷ [])))
      100
    ≡ some other_update
unfolding normalized_host trim_end_dots to_ascii_lowercase ascii_lower bytes_eq eq_ignore_ascii_case
    is_whitespace trim trim_start trim_end split_char split_loop split_quoted split_once ends_quoted
    unquote ma_part stated_age ma_parts alt_svc_candidate parse_alt_authority parse_alt_svc_parts
    parse_alt_svc_item header_items header_values parse_alt_svc_headers
other_taken = refl

-- Another host with the port of the scheme is not taken.
default_port :
    parse_alt_svc_item parse_url (codes "h3=alt.example:443") (codes "example.com") 100 ≡ none
unfolding normalized_host trim_end_dots to_ascii_lowercase ascii_lower bytes_eq eq_ignore_ascii_case
    is_whitespace trim trim_start trim_end split_char split_loop split_quoted split_once ends_quoted
    unquote ma_part stated_age ma_parts alt_svc_candidate parse_alt_authority parse_alt_svc_parts
    parse_alt_svc_item
default_port = refl

parse_alt_svc_headers-Advertised_example :
    (origin_host : Bytes) × HostOf url origin_host
    × Every (Advertised parse_url origin_host other_headers 100) other_update.candidates
parse_alt_svc_headers-Advertised_example =
    parse_alt_svc_headers-Advertised parse_url url other_headers 100 other_taken
