-- ===== src/Http/Http3Cache/AltSvc/RoundTrip.antt =====
-- src/http/http3_cache.rs: `Alt-Svc` headers that are written as servers write them.
use fetch.Common.{
  ℕ, ◌+◌, ◌^◌, ◌<◌, ◌≡◌, refl, sym, ap, ◌∙◌, Bool, Bool-cases, true, false, not, ◌||◌, Option, some,
  inl, inr, List, [], ◌∷◌, ◌++◌, append_assoc, append-nil, Bytes, is_empty, leb, ◌==◌, min,
  if◌then◌else◌, arith,
}
use fetch.Common.Text.{
  codes, eq_ignore_ascii_case, to_ascii_lowercase, ascii_lower, bytes_eq, &&-false,
}
use fetch.Common.Chars.{is_whitespace, trim, trim_start, trim_end}
use fetch.Http.Http3Cache.{StoredCandidate, AltSvcUpdate, max_retention_secs, saturating_add}
use fetch.Http.Http3Cache.AltSvc.{
  Url, split_quoted, alt_svc_candidate, normalized_host, parse_alt_svc_item, learn, no_update,
  header_items, header_values, parse_alt_svc_headers,
}
use fetch.Http.Http3Cache.AltSvc.Written.{
  write_alternative, write_header, written, split_header, parse_alt_svc_item-write_alternative,
}

-- Ports and ages as the program keeps them.
abbrev pub Words : List (ℕ × ℕ) → Type 0
Words [] = Unit
Words ((port, ma) ∷ more) = (port < 2 ^ 16) × (ma < 2 ^ 64) × Words more

-- What the alternatives stand for: those whose age is zero are withdrawn, the others are over after
-- their age, or after a week if that is sooner.
abbrev pub alternatives : List (ℕ × ℕ) → Bytes → ℕ → List StoredCandidate
alternatives [] origin_host now = []
alternatives ((port, ma) ∷ more) origin_host now =
    let rest = alternatives more origin_host now in
    if ma == 0 then rest else alt_svc_candidate origin_host port ma now ∷ rest

abbrev pub withdrawn : List (ℕ × ℕ) → Bytes → List (Bytes × ℕ)
withdrawn [] origin_host = []
withdrawn ((port, ma) ∷ more) origin_host =
    let rest = withdrawn more origin_host in if ma == 0 then (origin_host, port) ∷ rest else rest

abbrev behind : AltSvcUpdate → List (ℕ × ℕ) → Bytes → ℕ → AltSvcUpdate
behind update more origin_host now = record {
  clear = update.clear;
  candidates = update.candidates ++ alternatives more origin_host now;
  remove = update.remove ++ withdrawn more origin_host;
}

over :
    (ma now : ℕ)
    → now + max_retention_secs < 2 ^ 64
    → leb (saturating_add now (min ma max_retention_secs)) now ≡ (ma == 0)
over ma now h = ground arith

behind-nil :
    (update : AltSvcUpdate) (origin_host : Bytes) (now : ℕ)
    → behind update [] origin_host now ≡ update
behind-nil update origin_host now = rw (append-nil update.candidates, append-nil update.remove) refl

learn-behind :
    (update : AltSvcUpdate) (port ma : ℕ) (more : List (ℕ × ℕ)) (origin_host : Bytes) (now : ℕ)
    → now + max_retention_secs < 2 ^ 64
    → behind
        (learn update (some (alt_svc_candidate origin_host port ma now)) now)
        more
        origin_host
        now
      ≡ behind update ((port, ma) ∷ more) origin_host now
unfolding alt_svc_candidate
learn-behind update port ma more origin_host now h = elim (Bool-cases (ma == 0)) [
  | inl zero_age ↦
      rw
        (
          over ma now h,
          zero_age,
          append_assoc update.remove ((origin_host, port) ∷ []) (withdrawn more origin_host),
        )
        refl
  | inr other ↦
      rw
        (
          over ma now h,
          other,
          append_assoc update.candidates (alt_svc_candidate origin_host port ma now ∷ [])
              (alternatives more origin_host now),
        )
        refl
]

not_clear : (cs : Bytes) → eq_ignore_ascii_case (trim (b'h' ∷ cs)) (codes "clear") ≡ false
unfolding eq_ignore_ascii_case to_ascii_lowercase ascii_lower bytes_eq trim trim_start trim_end
    is_whitespace
not_clear cs = rw (&&-false (is_empty (trim_end cs))) refl

header-not_clear :
    (a : ℕ × ℕ) (more : List (ℕ × ℕ))
    → eq_ignore_ascii_case (trim (write_header a more)) (codes "clear") ≡ false
header-not_clear a [] = not_clear _
header-not_clear a (b ∷ more) = not_clear _

some_news :
    (a : ℕ × ℕ) (more : List (ℕ × ℕ)) (origin_host : Bytes) (now : ℕ)
    → not (is_empty (alternatives (a ∷ more) origin_host now))
        || not (is_empty (withdrawn (a ∷ more) origin_host))
      ≡ true
some_news (port, ma) more origin_host now = elim (Bool-cases (ma == 0)) [
  | inl zero_age ↦ rw zero_age (either (is_empty (alternatives more origin_host now)))
  | inr other ↦ rw other refl
]
  where
    either : (b : Bool) → not b || true ≡ true
    either true = refl
    either false = refl

module _ (parse_url : Bytes → Option Url) where
  header_items-cons :
      (update : AltSvcUpdate) (item : Bytes) (items : List Bytes) (origin_host : Bytes) (now : ℕ)
      → header_items parse_url update (item ∷ items) origin_host now
        ≡ header_items parse_url
            (learn update (parse_alt_svc_item parse_url item origin_host now) now)
            items
            origin_host
            now
  unfolding header_items
  header_items-cons update item items origin_host now = refl

  header_items-written :
      (origin_host : Bytes) (now : ℕ)
      → now + max_retention_secs < 2 ^ 64
      → (a : ℕ × ℕ) (more : List (ℕ × ℕ)) (update : AltSvcUpdate) → Words (a ∷ more)
      → header_items parse_url update (written a more) origin_host now
        ≡ behind update (a ∷ more) origin_host now
  unfolding header_items
  header_items-written origin_host now fits (port, ma) [] update (h, k, hs) =
      let found : AltSvcUpdate =
        learn update (some (alt_svc_candidate origin_host port ma now)) now in
      rw (parse_alt_svc_item-write_alternative parse_url port ma origin_host now h k) (
        sym (behind-nil found origin_host now)
        ∙ learn-behind update port ma [] origin_host now fits)
  header_items-written origin_host now fits (port, ma) (b ∷ more) update (h, k, hs) =
      let found : AltSvcUpdate =
        learn update (some (alt_svc_candidate origin_host port ma now)) now in
      header_items-cons update (write_alternative (port, ma)) (written b more) origin_host now
      ∙ ap
          (λ found.
            header_items parse_url (learn update found now) (written b more) origin_host now)
          (parse_alt_svc_item-write_alternative parse_url port ma origin_host now h k)
      ∙ header_items-written origin_host now fits b more found hs
      ∙ learn-behind update port ma (b ∷ more) origin_host now fits

  -- A header that lists alternatives of the origin's host by their ports and ages is read as these:
  -- those whose age is zero are withdrawn, in order, and the others are stored, in order, for their age,
  -- or for a week if that is sooner. Ports and ages are within their words, and so is the end of the week.
  pub parse_alt_svc_headers-write_header :
      (url : Url) (origin_host : Bytes) (now : ℕ) (a : ℕ × ℕ) (more : List (ℕ × ℕ))
      → normalized_host url ≡ some origin_host
      → now + max_retention_secs < 2 ^ 64
      → Words (a ∷ more)
      → parse_alt_svc_headers parse_url url (some (write_header a more) ∷ []) now
        ≡ some (record {
          clear = false;
          candidates = alternatives (a ∷ more) origin_host now;
          remove = withdrawn (a ∷ more) origin_host;
        })
  unfolding parse_alt_svc_headers header_values split_quoted
  parse_alt_svc_headers-write_header url origin_host now a more e fits w =
      rw
        (
          e,
          header-not_clear a more,
          split_header false [] a more,
          header_items-written origin_host now fits a more no_update w,
          some_news a more origin_host now,
        )
        refl
