-- ===== src/Http/Http3Cache/AltSvc/Advertised.antt =====
-- src/http/http3_cache.rs: what an `Alt-Svc` header may advertise.
use fetch.Common.{
  ℕ, ◌+◌, ◌<◌, ◌≡◌, refl, sym, Bool, Bool-cases, true, false, not, ◌||◌, Option, none, some,
  some_inj, and_then-eq-some, inl, inr, List, [], ◌∷◌, ◌++◌, Bytes, In, is_empty, leb, min,
  if◌then◌else◌, arith,
}
use fetch.Common.Text.{codes, eq_ignore_ascii_case}
use fetch.Common.Chars.{trim}
use fetch.Http.Http3Cache.{StoredCandidate, AltSvcUpdate, source_alt_svc}
use fetch.Http.Http3Cache.Prune.{Every}
use fetch.Http.Http3Cache.AltSvc.{
  Url, normalized_host, split_quoted, split_once, unquote, ma_parts, default_alt_svc_ma_secs,
  alt_svc_candidate, parse_alt_authority, parse_alt_svc_parts, parse_alt_svc_item, learn,
  header_items, header_values, no_update, parse_alt_svc_headers,
}
use fetch.Http.Http3Cache.AltSvc.Parts.{
  Quoted, HostOf, Endpoint, Aged, if-eq-some, split_once-some, unquote-Quoted,
  normalized_host-HostOf, parse_alt_authority-Endpoint, ma_parts_default-Aged,
}

-- The time at which something of an age is over: a week is the longest, and a `u64` holds no later one.
abbrev pub Over : ℕ → ℕ → ℕ → Type 0
Over now ma end = end ≡ min (now + min ma 604800) 18446744073709551615

module _ (parse_url : Bytes → Option Url) where
  -- A candidate as the parts of an item say it: `h3`, an authority, in quotation marks or not, that names
  -- its endpoint, and parameters that may say its age.
  pub record Alternative (origin_host : Bytes) (now : ℕ) (parts : List Bytes) (c : StoredCandidate)
      : Type 0 where
    pub first : Bytes
    pub params : List Bytes
    pub protocol : Bytes
    pub authority : Bytes
    pub text : Bytes
    pub age : ℕ
    pub whole : parts ≡ first ∷ params
    pub named : trim first ≡ protocol ++ b'=' ∷ authority
    pub is_h3 : eq_ignore_ascii_case (trim protocol) (codes "h3") ≡ true
    pub unquoted : Quoted text (trim authority)
    pub endpoint : Endpoint parse_url origin_host text c.alt_host c.alt_port
    pub aged : Aged params age
    pub over : Over now age c.expires_at
    pub learned : (c.learned_at ≡ now) × (c.last_used_at ≡ now)
    pub source : c.source ≡ source_alt_svc
    pub unranked : c.priority ≡ none

  -- A candidate of an item of one of the headers, which is not over yet.
  pub record Advertised (origin_host : Bytes) (headers : List (Option Bytes)) (now : ℕ)
      (c : StoredCandidate) : Type 0 where
    pub value : Bytes
    pub item : Bytes
    pub sent : In (some value) headers
    pub unclear : eq_ignore_ascii_case (trim value) (codes "clear") ≡ false
    pub listed : In item (split_quoted value b',')
    pub alternative : Alternative origin_host now (split_quoted item b';') c
    pub fresh : now < c.expires_at

  parse_alt_svc_parts-Alternative :
      (parts : List Bytes) (origin_host : Bytes) (now : ℕ) {c : StoredCandidate}
      → parse_alt_svc_parts parse_url parts origin_host now ≡ some c
      → Alternative origin_host now parts c
  unfolding parse_alt_svc_parts alt_svc_candidate
  parse_alt_svc_parts-Alternative [] origin_host now h = cc
  parse_alt_svc_parts-Alternative (first ∷ params) origin_host now {c} h =
      let (halves, e, f) = and_then-eq-some (split_once b'=' (trim first)) _ h in
      let (is_h3, g) = if-eq-some (eq_ignore_ascii_case (trim halves.0) (codes "h3")) _ f in
      let (text, k, l) = and_then-eq-some (unquote (trim halves.1)) _ g in
      let (endpoint, m, n) =
        and_then-eq-some (parse_alt_authority parse_url text origin_host) _ l in
      let age : ℕ = ma_parts default_alt_svc_ma_secs params in
      let found : Alternative origin_host now (first ∷ params)
          (alt_svc_candidate endpoint.0 endpoint.1 age now) =
        record {
          first = first;
          params = params;
          protocol = halves.0;
          authority = halves.1;
          text = text;
          age = age;
          whole = refl;
          named = split_once-some b'=' (trim first) e;
          is_h3 = is_h3;
          unquoted = unquote-Quoted (trim halves.1) k;
          endpoint = parse_alt_authority-Endpoint parse_url text origin_host m;
          aged = ma_parts_default-Aged params;
          over = refl;
          learned = (refl, refl);
          source = refl;
          unranked = refl;
        } in
      moved (some_inj n) found
    where
      moved :
          {a b : StoredCandidate}
          → a ≡ b
          → Alternative origin_host now (first ∷ params) a
          → Alternative origin_host now (first ∷ params) b
      moved e h = rw (sym e) h

  Every-snoc :
      (P : StoredCandidate → Type 0) (candidates : List StoredCandidate) (c : StoredCandidate)
      → Every P candidates
      → P c
      → Every P (candidates ++ c ∷ [])
  Every-snoc P [] c h k = (k, tt)
  Every-snoc P (d ∷ candidates) c (h, more) k = (h, Every-snoc P candidates c more k)

  leb-false : (m n : ℕ) → leb m n ≡ false → n < m
  leb-false m n h = ground arith

  -- A property of the candidates that holds of what is found, if it is not over.
  learn-Every :
      (P : StoredCandidate → Type 0) (update : AltSvcUpdate) (found : Option StoredCandidate)
      (now : ℕ)
      → Every P update.candidates
      → ((c : StoredCandidate) → found ≡ some c → now < c.expires_at → P c)
      → Every P (learn update found now).candidates
  learn-Every P update none now h k = h
  learn-Every P update (some c) now h k = elim (Bool-cases (leb c.expires_at now)) [
    | inl gone ↦ rw gone h
    | inr fresh ↦
        rw fresh (Every-snoc P update.candidates c h (k c refl (leb-false c.expires_at now fresh)))
  ]

  header_items-Every :
      (P : StoredCandidate → Type 0) (update : AltSvcUpdate) (items : List Bytes)
      (origin_host : Bytes) (now : ℕ)
      → Every P update.candidates
      → ((item : Bytes) (c : StoredCandidate)
          → In item items
          → parse_alt_svc_item parse_url item origin_host now ≡ some c
          → now < c.expires_at
          → P c)
      → Every P (header_items parse_url update items origin_host now).candidates
  unfolding header_items
  header_items-Every P update [] origin_host now h k = h
  header_items-Every P update (item ∷ items) origin_host now h k =
      header_items-Every P (learn update (parse_alt_svc_item parse_url item origin_host now) now)
        items origin_host now
        (learn-Every P update (parse_alt_svc_item parse_url item origin_host now) now h
          (λ c e fresh. k item c (inl refl) e fresh))
        (λ other c m e fresh. k other c (inr m) e fresh)

  header_values-Advertised :
      (headers : List (Option Bytes)) (update : AltSvcUpdate) (values : List (Option Bytes))
      (origin_host : Bytes) (now : ℕ)
      → Every (Advertised origin_host headers now) update.candidates
      → ((value : Option Bytes) → In value values → In value headers)
      → Every
          (Advertised origin_host headers now)
          (header_values parse_url update values origin_host now).candidates
  unfolding header_values parse_alt_svc_item
  header_values-Advertised headers update [] origin_host now h f = h
  header_values-Advertised headers update (none ∷ values) origin_host now h f =
      header_values-Advertised headers update values origin_host now h (λ other m. f other (inr m))
  header_values-Advertised headers update (some value ∷ values) origin_host now h f =
      header_values-Advertised headers (chosen (eq_ignore_ascii_case (trim value) (codes "clear")))
        values origin_host now (one (eq_ignore_ascii_case (trim value) (codes "clear")) refl)
        (λ other m. f other (inr m))
    where
      chosen : Bool → AltSvcUpdate
      chosen b =
          if b
          then record update { clear = true }
          else header_items parse_url update (split_quoted value b',') origin_host now

      one :
          (b : Bool)
          → eq_ignore_ascii_case (trim value) (codes "clear") ≡ b
          → Every (Advertised origin_host headers now) (chosen b).candidates
      one true e = h
      one false e =
          header_items-Every (Advertised origin_host headers now) update (split_quoted value b',')
            origin_host now h
            (λ item c m k fresh. record {
              value = value;
              item = item;
              sent = f (some value) (inl refl);
              unclear = e;
              listed = m;
              alternative =
                  parse_alt_svc_parts-Alternative (split_quoted item b';') origin_host now k;
              fresh = fresh;
            })

  -- Whatever the headers say, the URL has a host, and each candidate that is taken is one that an item
  -- of one of the headers, which does not say `clear`, names: the item's protocol is `h3`; the endpoint is
  -- the port that its authority names with the host of the URL, or the host and port of the URL that its
  -- authority makes; the age is the one that a parameter of the item says, or a day, and no more than a
  -- week. The candidate is not over yet, was learned now, and has no priority.
  pub parse_alt_svc_headers-Advertised :
      (url : Url) (headers : List (Option Bytes)) (now : ℕ) {update : AltSvcUpdate}
      → parse_alt_svc_headers parse_url url headers now ≡ some update
      → (origin_host : Bytes) × HostOf url origin_host
        × Every (Advertised origin_host headers now) update.candidates
  unfolding parse_alt_svc_headers
  parse_alt_svc_headers-Advertised url headers now {update} e =
      let (origin_host, f, g) = and_then-eq-some (normalized_host url) _ e in
      let found : AltSvcUpdate = header_values parse_url no_update headers origin_host now in
      let (news, k) =
        if-eq-some (found.clear || not (is_empty found.candidates) || not (is_empty found.remove))
          (some found) g in
      (
        origin_host,
        normalized_host-HostOf url f,
        moved origin_host (some_inj k)
            (header_values-Advertised headers no_update headers origin_host now tt (λ value m. m)),
      )
    where
      moved :
          (origin_host : Bytes) {a b : AltSvcUpdate}
          → a ≡ b
          → Every (Advertised origin_host headers now) a.candidates
          → Every (Advertised origin_host headers now) b.candidates
      moved origin_host e h = rw (sym e) h
