-- ===== src/Dns/Response/Refused.antt =====
-- src/dns/wire.rs: a query is no response.
use fetch.Common.{
  ℕ, inl, inr, Bool-cases, if◌then◌else◌, length, le→ltb, ◌^◌, ◌<◌, ◌≡◌, refl, true, Bytes, ok, err,
  ◌==◌, arith,
}
use fetch.Common.Utf8.{is_utf8}
use fetch.Dns.Wire.{build_query, mismatched_id}
use fetch.Dns.Wire.Query.{build_query-Asks}
use fetch.Dns.Response.{
  check_header, id_differs, parse_response, parse_response_inner, not_a_response,
}

-- A query for a name that is a text, sent back as it is, is refused whatever was asked: as no response
-- if the ID is the expected one, and else for its ID.
pub parse_response-build_query :
    (id expected : ℕ) (host : Bytes) (typ : ℕ) (name : Bytes) (other class : ℕ) {query : Bytes}
    → id < 2 ^ 16
    → typ < 2 ^ 16
    → is_utf8 host ≡ true
    → build_query id host typ ≡ ok query
    → parse_response query expected name other class
      ≡ (if id == expected then err not_a_response else err mismatched_id)
unfolding parse_response parse_response_inner check_header
parse_response-build_query id expected host typ name other class {query} h k u e =
    let asks = build_query-Asks id host typ h k u e in
    rw (le→ltb (length query) 12 (omega (arith, asks.end)), asks.id_read, id_differs)
      (elim (Bool-cases (id == expected)) [
        | inl same ↦ rw (same, asks.flags_read) refl
        | inr differs ↦ rw differs refl
      ])
