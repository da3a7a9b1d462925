-- ===== src/Http/Http3Cache/AltSvc/Parts.antt =====
-- src/http/http3_cache.rs: the parts of an alternative, from what is read of them.
use fetch.Common.{
  ℕ, ◌-◌, ◌^◌, ◌⊎◌, ◌≡◌, refl, sym, ap, Bool, Bool-cases, true, false, ◌&&◌, ◌||◌, Option,
  Option-cases, none, some, some_inj, and_then-eq-some, inl, inr, List, [], ◌∷◌, ◌++◌, Bytes, In,
  length, length-append, take, take-length-append, leb, ◌==◌, ==→eq, if◌then◌else◌, arith,
}
use fetch.Common.Text.{codes, eq_ignore_ascii_case, to_ascii_lowercase, &&-both}
use fetch.Common.Chars.{trim}
use fetch.Common.Parse.{Worth, parse_below, parse_below-Worth}
use fetch.Dns.Wire.{trim_end_dots}
use fetch.Http.Http3Cache.AltSvc.{
  Url, ◌>>=◌, normalized_host, split_once, starts_quoted, ends_quoted, unquote, unwrap_or,
  stated_age, age_or, ma_part, ma_parts, parse_alt_authority, default_alt_svc_ma_secs,
}

-- A text that stands in quotation marks, or without.
abbrev pub Quoted : Bytes → Bytes → Type 0
Quoted text outer = (outer ≡ b'"' ∷ (text ++ b'"' ∷ [])) ⊎ (outer ≡ text)

-- The host of a URL, without the dots at its end and in lower case.
abbrev pub HostOf : Url → Bytes → Type 0
HostOf url host =
    (name : Bytes) × (url.host_str ≡ some name) × (host ≡ to_ascii_lowercase (trim_end_dots name))

-- The first delimiter cuts a text in two.
pub split_once-some :
    (delimiter : ℕ) (cs : Bytes) {parts : Bytes × Bytes}
    → split_once delimiter cs ≡ some parts
    → cs ≡ parts.0 ++ delimiter ∷ parts.1
unfolding split_once
split_once-some delimiter [] h = cc
split_once-some delimiter (c ∷ cs) h = elim (Bool-cases (c == delimiter)) [
  | inl e ↦
      let p : c ≡ delimiter = ==→eq c delimiter e in
      let q = some_inj (rw e at h) in rw (sym q, p) refl
  | inr e ↦
      let (read, r, s) = and_then-eq-some (split_once delimiter cs) _ (rw e at h) in
      let q = some_inj s in rw (sym q) (ap (◌∷◌ c) (split_once-some delimiter cs r))
]

ends_quoted-some : (cs : Bytes) → ends_quoted cs ≡ true → (init : Bytes) × (cs ≡ init ++ b'"' ∷ [])
unfolding ends_quoted
ends_quoted-some [] h = cc
ends_quoted-some (c ∷ []) h = let p : c ≡ b'"' = ==→eq c b'"' h in ([], rw p refl)
ends_quoted-some (c ∷ (d ∷ cs)) h =
    let (init, e) = ends_quoted-some (d ∷ cs) h in (c ∷ init, ap (◌∷◌ c) e)

Quoted-inside :
    (c d : ℕ) (cs : Bytes)
    → c == b'"' ≡ true
    → ends_quoted (d ∷ cs) ≡ true
    → Quoted (take (length cs) (d ∷ cs)) (c ∷ (d ∷ cs))
Quoted-inside c d cs h k =
    let (init, e) = ends_quoted-some (d ∷ cs) k in
    let p : c ≡ b'"' = ==→eq c b'"' h in
    let size : length (d ∷ cs) ≡ length (init ++ b'"' ∷ []) = ap length e in
    let n : length cs ≡ length init = omega (arith, size, length-append init (b'"' ∷ [])) in
    inl (rw (n, e, take-length-append init (b'"' ∷ []), p) refl)

ends_behind :
    (c d : ℕ) (cs : Bytes) → ends_quoted (c ∷ (d ∷ cs)) ≡ true → ends_quoted (d ∷ cs) ≡ true
unfolding ends_quoted
ends_behind c d cs h = h

unmarked :
    (marked : Bool) (outer : Bytes) {text : Bytes}
    → ◌≡◌ {A = Option Bytes} (if marked then none else some outer) (some text)
    → outer ≡ text
unmarked true outer h = cc
unmarked false outer h = some_inj h

-- What `unquote` gives is what stands in the marks.
pub unquote-Quoted : (outer : Bytes) {text : Bytes} → unquote outer ≡ some text → Quoted text outer
unfolding unquote
unquote-Quoted [] h = inr (unmarked (starts_quoted [] || ends_quoted []) [] h)
unquote-Quoted (c ∷ []) h =
    inr (unmarked (starts_quoted (c ∷ []) || ends_quoted (c ∷ [])) (c ∷ []) h)
unquote-Quoted (c ∷ (d ∷ cs)) {text} h =
    let outer : Bytes = c ∷ (d ∷ cs) in
    elim (Bool-cases (leb 2 (length outer) && starts_quoted outer && ends_quoted outer)) [
      | inr other ↦ inr (unmarked (starts_quoted outer || ends_quoted outer) outer (rw other at h))
      | inl marks ↦
          let (some_two, ends) =
            &&-both (leb 2 (length outer) && starts_quoted outer) (ends_quoted outer) marks in
          let (two, starts) = &&-both (leb 2 (length outer)) (starts_quoted outer) some_two in
          let e : take (length outer - 2) (d ∷ cs) ≡ text = some_inj (rw marks at h) in
          let n : length outer - 2 ≡ length cs = omega arith in
          let f : take (length cs) (d ∷ cs) ≡ text = rw n at e in
          moved f (Quoted-inside c d cs starts (ends_behind c d cs ends))
    ]
  where
    moved : {a b : Bytes} → a ≡ b → {outer : Bytes} → Quoted a outer → Quoted b outer
    moved e h = rw (sym e) h

pub normalized_host-HostOf :
    (url : Url) {host : Bytes} → normalized_host url ≡ some host → HostOf url host
unfolding normalized_host
normalized_host-HostOf url h =
    let (name, e, f) = and_then-eq-some url.host_str _ h in (name, e, sym (some_inj f))

-- A parameter of an alternative says its age.
abbrev pub SaysAge : Bytes → ℕ → Type 0
SaysAge param ma =
    (name : Bytes) × (value : Bytes) × (text : Bytes) × (param ≡ name ++ b'=' ∷ value)
    × (eq_ignore_ascii_case (trim name) (codes "ma") ≡ true)
    × Quoted text (trim value)
    × Worth (2 ^ 64) text ma

-- The age of an alternative: one of its parameters says it, or it is a day.
abbrev pub Aged : List Bytes → ℕ → Type 0
Aged params ma = (ma ≡ 86400) ⊎ ((param : Bytes) × In param params × SaysAge param ma)

unwrap_or-Quoted : (value : Bytes) → Quoted (unwrap_or (unquote value) value) value
unwrap_or-Quoted value = elim (Option-cases (unquote value)) [
  | inl absent ↦ rw absent (inr refl)
  | inr (text, e) ↦ rw e (unquote-Quoted value e)
]

pub if-eq-some :
    {A : Type 0} (b : Bool) (o : Option A) {x : A}
    → (if b then o else none) ≡ some x
    → (b ≡ true) × (o ≡ some x)
if-eq-some true o h = (refl, h)
if-eq-some false o h = cc

stated_age-SaysAge : (param : Bytes) {ma : ℕ} → stated_age param ≡ some ma → SaysAge param ma
unfolding stated_age
stated_age-SaysAge param h =
    let (parts, e, f) = and_then-eq-some (split_once b'=' param) _ h in
    let (named, parsed) =
      if-eq-some (eq_ignore_ascii_case (trim parts.0) (codes "ma"))
        (parse_below (2 ^ 64) (unwrap_or (unquote (trim parts.1)) (trim parts.1))) f in
    (
      parts.0,
      parts.1,
      unwrap_or (unquote (trim parts.1)) (trim parts.1),
      split_once-some b'=' param e,
      named,
      unwrap_or-Quoted (trim parts.1),
      parse_below-Worth (2 ^ 64) (unwrap_or (unquote (trim parts.1)) (trim parts.1)) parsed,
    )

-- The parameters seen, of those of an alternative.
ma_parts-Aged :
    (all : List Bytes) (ma : ℕ) (params : List Bytes)
    → Aged all ma
    → ((param : Bytes) → In param params → In param all)
    → Aged all (ma_parts ma params)
unfolding ma_parts ma_part
ma_parts-Aged all ma [] h f = h
ma_parts-Aged all ma (param ∷ params) h f =
    ma_parts-Aged all (age_or ma (stated_age param)) params (one (stated_age param) refl)
      (λ other m. f other (inr m))
  where
    one : (o : Option ℕ) → stated_age param ≡ o → Aged all (age_or ma o)
    one none e = h
    one (some stated) e = inr (param, f param (inl refl), stated_age-SaysAge param e)

pub ma_parts_default-Aged :
    (params : List Bytes) → Aged params (ma_parts default_alt_svc_ma_secs params)
ma_parts_default-Aged params =
    ma_parts-Aged params default_alt_svc_ma_secs params (inl refl) (λ param m. m)

module _ (parse_url : Bytes → Option Url) where
  -- The endpoint that an authority names: a port of the origin's host, or the host and the port of a URL.
  abbrev pub Endpoint : Bytes → Bytes → Bytes → ℕ → Type 0
  Endpoint origin_host authority host port =
      ((digits : Bytes) × (authority ≡ b':' ∷ digits)
        × (host ≡ origin_host)
        × Worth (2 ^ 16) digits port)
      ⊎ ((url : Url) × (parse_url (codes "https://" ++ authority ++ codes "/") ≡ some url)
          × HostOf url host
          × (url.port ≡ some port))

  abbrev with_host : Bytes → Option (Bytes × ℕ)
  with_host authority = parse_url (codes "https://" ++ authority ++ codes "/") >>= λ url.
      normalized_host url >>= λ host. url.port >>= λ port. some (host, port)

  with_host-Endpoint :
      (origin_host authority : Bytes) {endpoint : Bytes × ℕ}
      → with_host authority ≡ some endpoint
      → Endpoint origin_host authority endpoint.0 endpoint.1
  with_host-Endpoint origin_host authority h =
      let (url, e, f) =
        and_then-eq-some (parse_url (codes "https://" ++ authority ++ codes "/")) _ h in
      let (host, g, k) = and_then-eq-some (normalized_host url) _ f in
      let (port, l, m) = and_then-eq-some url.port _ k in
      let q = some_inj m in inr (url, e, rw (sym q) (normalized_host-HostOf url g), rw (sym q) l)

  pub parse_alt_authority-Endpoint :
      (authority origin_host : Bytes) {endpoint : Bytes × ℕ}
      → parse_alt_authority parse_url authority origin_host ≡ some endpoint
      → Endpoint origin_host authority endpoint.0 endpoint.1
  unfolding parse_alt_authority
  parse_alt_authority-Endpoint [] origin_host h = with_host-Endpoint origin_host [] h
  parse_alt_authority-Endpoint (c ∷ cs) origin_host h = elim (Bool-cases (c == b':')) [
    | inl colon ↦
        let p : c ≡ b':' = ==→eq c b':' colon in
        let (port, e, f) = and_then-eq-some (parse_below (2 ^ 16) cs) _ (rw colon at h) in
        let q = some_inj f in
        inl (cs, rw p refl, rw (sym q) refl, rw (sym q) (parse_below-Worth (2 ^ 16) cs e))
    | inr other ↦ with_host-Endpoint origin_host (c ∷ cs) (rw other at h)
  ]
