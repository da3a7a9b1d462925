-- ===== src/Dns/Svcb/Lookup/Agree.antt =====
-- src/dns/svcb.rs: the same answers over UDP and over HTTPS.
use fetch.Common.{
  ◌<◌, ◌^◌, ◌≡◌, refl, ap, ◌∙◌, Option, some, none, List, [], ◌∷◌, Bytes, length, ◌==◌, eq→==,
  if◌then◌else◌,
}
use fetch.Dns.Wire.{class_in}
use fetch.Dns.Response.{ResourceRecord}
use fetch.Dns.Svcb.{SvcbRecord, ◌>>=◌, parse_rdata}
use fetch.Dns.Svcb.Hex.{AllBytes}
use fetch.Dns.Svcb.Lookup.{
  dns_type_https, DohRecord, parse_generic_rdata, doh_record, doh_https_records, udp_record,
  udp_https_records,
}
use fetch.Dns.Svcb.Lookup.Generic.{
  write_generic, parse_generic_rdata-write_generic, parse_generic_rdata_nothing,
}

-- An answer as it is written over HTTPS.
abbrev pub written : ResourceRecord → DohRecord
written answer = record {
  answer_type = answer.typ;
  contents = write_generic answer.contents;
  ttl = some answer.ttl;
}

abbrev pub all_written : List ResourceRecord → List DohRecord
all_written [] = []
all_written (answer ∷ answers) = written answer ∷ all_written answers

-- Answers of the Internet with the bytes of their data.
abbrev pub Internet : List ResourceRecord → Type 0
Internet [] = Unit
Internet (answer ∷ answers) =
    (answer.class ≡ class_in)
    × AllBytes answer.contents
    × (length answer.contents < 2 ^ 64)
    × Internet answers

parse_rdata_nothing : parse_rdata [] ≡ none
unfolding parse_rdata
parse_rdata_nothing = refl

-- Too short data is refused in either notation.
generic-parse_rdata :
    (contents : Bytes)
    → AllBytes contents
    → length contents < 2 ^ 64
    → (parse_generic_rdata (write_generic contents) >>= parse_rdata) ≡ parse_rdata contents
generic-parse_rdata [] h fits = rw (parse_generic_rdata_nothing, parse_rdata_nothing) refl
generic-parse_rdata (byte ∷ raw) h fits =
    rw (parse_generic_rdata-write_generic byte raw h fits) refl

>>=_nested :
    (o : Option Bytes) (f : SvcbRecord → Option SvcbRecord)
    → (o >>= λ raw. parse_rdata raw >>= f) ≡ ((o >>= parse_rdata) >>= f)
>>=_nested none f = refl
>>=_nested (some raw) f = refl

doh_record-written :
    (answer : ResourceRecord)
    → AllBytes answer.contents
    → length answer.contents < 2 ^ 64
    → doh_record (written answer) ≡ udp_record answer
unfolding doh_record udp_record
doh_record-written answer h fits =
    >>=_nested (parse_generic_rdata (write_generic answer.contents)) _
    ∙ ap (λ (o : Option SvcbRecord). o >>= λ r. some (record r { ttl = some answer.ttl }))
        (generic-parse_rdata answer.contents h fits)

-- Where the answers are all of the Internet's class, an answer over HTTPS gives the records that the same
-- answers give over UDP, if the server writes their data, which are less than 2^64 bytes, in the generic
-- notation.
pub doh_https_records-all_written :
    (answers : List ResourceRecord)
    → Internet answers
    → doh_https_records (all_written answers) ≡ udp_https_records answers
unfolding doh_https_records udp_https_records
doh_https_records-all_written [] h = refl
doh_https_records-all_written (answer ∷ answers) (class, h, fits, more) =
    rw (eq→== answer.class class_in class, doh_record-written answer h fits)
      (ap
        (λ (rest : List SvcbRecord).
          if answer.typ == dns_type_https
          then elim (udp_record answer) [ some r ↦ r ∷ rest | none ↦ rest ]
          else rest)
        (doh_https_records-all_written answers more))
