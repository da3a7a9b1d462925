-- ===== src/Dns/Svcb/Lookup.antt =====
-- src/dns/svcb.rs: the records of an answer, over HTTPS in the generic notation, or over UDP. A text is its
-- code points; a digit of one that is none in ASCII is refused as each of its bytes would be.
pub mod Generic
pub mod Agree
mod Tests
use fetch.Common.{
  ℕ, ◌^◌, Bool, true, false, not, ◌&&◌, ◌||◌, Option, none, some, List, [], ◌∷◌, ◌++◌, Bytes,
  length, is_empty, ltb, ◌==◌, if◌then◌else◌,
}
use fetch.Common.Text.{codes, bytes_eq}
use fetch.Common.Chars.{is_whitespace}
use fetch.Common.Parse.{parse_below}
use fetch.Dns.Wire.{class_in, cons_first}
use fetch.Dns.Response.{ResourceRecord}
use fetch.Dns.Svcb.{SvcbRecord, ◌>>=◌, parse_rdata}
use fetch.Dns.Svcb.Format.{hex_decode}

abbrev pub dns_type_https : ℕ
dns_type_https = 65

-- The texts between whitespace, empty ones too.
unfoldable pub pieces : List ℕ → List (List ℕ)
pieces [] = [] ∷ []
pieces (c ∷ cs) = let rest = pieces cs in if is_whitespace c then [] ∷ rest else cons_first c rest

unfoldable pub nonempty : List (List ℕ) → List (List ℕ)
nonempty [] = []
nonempty (piece ∷ others) =
    let rest = nonempty others in if is_empty piece then rest else piece ∷ rest

unfoldable pub split_whitespace : List ℕ → List (List ℕ)
split_whitespace text = nonempty (pieces text)

unfoldable pub concat : List (List ℕ) → List ℕ
concat [] = []
concat (field ∷ fields) = field ++ concat fields

unfoldable pub generic_fields : List (List ℕ) → Option Bytes
generic_fields [] = none
generic_fields (mark ∷ []) = none
generic_fields (mark ∷ (len ∷ fields)) =
    if is_empty fields || not (bytes_eq mark (codes "\\#"))
    then none
    else (parse_below (2 ^ 64) len >>= λ want_len.
        hex_decode (concat fields) >>= λ raw. if length raw == want_len then some raw else none)

unfoldable pub parse_generic_rdata : List ℕ → Option Bytes
parse_generic_rdata value = generic_fields (split_whitespace value)

-- An answer of a lookup over HTTPS.
pub record DohRecord : Type 0 where
  pub answer_type : ℕ
  pub contents : List ℕ
  pub ttl : Option ℕ

unfoldable pub doh_record : DohRecord → Option SvcbRecord
doh_record answer = parse_generic_rdata answer.contents >>= λ raw.
    parse_rdata raw >>= λ r. some (record r { ttl = answer.ttl })

unfoldable pub doh_https_records : List DohRecord → List SvcbRecord
doh_https_records [] = []
doh_https_records (answer ∷ answers) =
    let rest = doh_https_records answers in
    if answer.answer_type == dns_type_https
    then elim (doh_record answer) [ some r ↦ r ∷ rest | none ↦ rest ]
    else rest

unfoldable pub udp_record : ResourceRecord → Option SvcbRecord
udp_record answer = parse_rdata answer.contents >>= λ r. some (record r { ttl = some answer.ttl })

unfoldable pub udp_https_records : List ResourceRecord → List SvcbRecord
udp_https_records [] = []
udp_https_records (answer ∷ answers) =
    let rest = udp_https_records answers in
    if (answer.class == class_in) && (answer.typ == dns_type_https)
    then elim (udp_record answer) [ some r ↦ r ∷ rest | none ↦ rest ]
    else rest
