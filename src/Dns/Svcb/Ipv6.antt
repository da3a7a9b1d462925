-- ===== src/Dns/Svcb/Ipv6.antt =====
-- src/dns/svcb.rs: `Display` of an IPv6 address, with its longest run of zero segments left out.
use fetch.Common.{
  ℕ, zero, suc, ◌+◌, ◌*◌, ◌/◌, ◌%◌, ◌^◌, List, [], ◌∷◌, ◌++◌, map, Bytes, get_or, take, drop, ltb,
  ◌==◌, if◌then◌else◌, replicate,
}
use fetch.Common.Text.{codes, bytes_eq}
use fetch.Common.Decimal.{to_string}

-- What stands between the parts.
unfoldable pub join : Bytes → List Bytes → Bytes
join separator [] = []
join separator (first ∷ []) = first
join separator (first ∷ (second ∷ others)) =
    first ++ (separator ++ join separator (second ∷ others))

-- `Display` of an IPv4 address.
unfoldable pub ipv4_to_string : Bytes → Bytes
ipv4_to_string octets = join (b'.' ∷ []) (map to_string octets)

abbrev pub hex_letters : Bytes
hex_letters = codes "0123456789abcdef"

-- A segment has four digits at most.
unfoldable pub segment_digits : ℕ → ℕ → Bytes
segment_digits zero n = []
segment_digits (suc fuel) n =
    let rest = segment_digits fuel (n / 16) in
    let digit = get_or hex_letters (n % 16) 0 in if ltb n 16 then digit ∷ [] else rest ++ digit ∷ []

unfoldable pub segments : Bytes → List ℕ
segments [] = []
segments (high ∷ []) = []
segments (high ∷ (low ∷ octets)) = (high * 2 ^ 8 + low) ∷ segments octets

pub record Span : Type 0 where
  pub start : ℕ
  pub len : ℕ

abbrev pub extended : Span → ℕ → Span
extended current i = record {
  start = if current.len == 0 then i else current.start;
  len = current.len + 1;
}

-- The first one of the longest runs of zeros.
unfoldable pub longest_zeros : ℕ → List ℕ → Span → Span → Span
longest_zeros i [] current longest = longest
longest_zeros i (segment ∷ others) current longest =
    let next = if segment == 0 then extended current i else record { start = 0; len = 0 } in
    longest_zeros (i + 1) others next (if ltb longest.len next.len then next else longest)

abbrev pub no_span : Span
no_span = record { start = 0; len = 0 }

unfoldable pub segments_to_string : List ℕ → Bytes
segments_to_string parts = join (b':' ∷ []) (map (segment_digits 4) parts)

unfoldable pub ipv6_to_string : Bytes → Bytes
ipv6_to_string octets =
    let parts = segments octets in
    let zeros = longest_zeros 0 parts no_span no_span in
    if bytes_eq (take 12 octets) (replicate 10 0 ++ 0xff ∷ (0xff ∷ []))
    then codes "::ffff:" ++ ipv4_to_string (drop 12 octets)
    else if ltb 1 zeros.len
    then segments_to_string (take zeros.start parts)
      ++ codes "::"
      ++ segments_to_string (drop (zeros.start + zeros.len) parts)
    else segments_to_string parts
