-- ===== src/Http/Http3Cache/AltSvc.antt =====
-- src/http/http3_cache.rs: `Alt-Svc` headers. A header is the text that `to_str` gives, which is ASCII, or
-- `none`; what the URL library parses is a parameter.
pub mod Parts
pub mod Advertised
pub mod Splitting
pub mod Written
pub mod RoundTrip
mod Tests
use fetch.Common.{
  ℕ, ◌+◌, ◌-◌, ◌*◌, ◌^◌, Bool, true, false, not, ◌&&◌, ◌||◌, Option, none, some, and_then, List, [],
  ◌∷◌, ◌++◌, Bytes, length, is_empty, min, take, drop, leb, ◌==◌, if◌then◌else◌,
}
use fetch.Common.Text.{codes, eq_ignore_ascii_case, to_ascii_lowercase}
use fetch.Common.Chars.{trim}
use fetch.Common.Parse.{parse_below}
use fetch.Dns.Wire.{trim_end_dots}
use fetch.Http.Http3Cache.{
  StoredCandidate, AltSvcUpdate, source_alt_svc, max_retention_secs, saturating_add,
}

abbrev pub default_alt_svc_ma_secs : ℕ
default_alt_svc_ma_secs = 24 * 60 * 60

-- What the code reads of a URL.
pub record Url : Type 0 where
  pub host_str : Option Bytes
  pub port : Option ℕ

infixl 5 ◌>>=◌
abbrev pub ◌>>=◌ : {A B : Type 0} → Option A → (A → Option B) → Option B
o >>= rest = and_then o rest

unfoldable pub normalized_host : Url → Option Bytes
normalized_host url = url.host_str >>= λ host. some (to_ascii_lowercase (trim_end_dots host))

-- The variables of `split_quoted`.
pub record Splitter : Type 0 where
  pub out : List Bytes
  pub current : Bytes
  pub quoted : Bool
  pub escaped : Bool

unfoldable pub split_char : ℕ → Splitter → ℕ → Splitter
split_char separator s ch =
    if s.escaped
    then record s { current = s.current ++ ch ∷ []; escaped = false }
    else if s.quoted && (ch == b'\\')
    then record s { escaped = true; current = s.current ++ ch ∷ [] }
    else if ch == b'"'
    then record s { quoted = not s.quoted; current = s.current ++ ch ∷ [] }
    else if not s.quoted && (ch == separator)
    then record s { out = s.out ++ trim s.current ∷ []; current = [] }
    else record s { current = s.current ++ ch ∷ [] }

unfoldable pub split_loop : ℕ → Splitter → Bytes → Splitter
split_loop separator s [] = s
split_loop separator s (ch ∷ rest) = split_loop separator (split_char separator s ch) rest

abbrev pub splitting : List Bytes → Bytes → Splitter
splitting out current = record { out = out; current = current; quoted = false; escaped = false }

abbrev pub split_end : Splitter → List Bytes
split_end s = s.out ++ trim s.current ∷ []

unfoldable pub split_quoted : Bytes → ℕ → List Bytes
split_quoted value separator = split_end (split_loop separator (splitting [] []) value)

unfoldable pub split_once : ℕ → Bytes → Option (Bytes × Bytes)
split_once delimiter [] = none
split_once delimiter (c ∷ cs) =
    let rest = split_once delimiter cs in
    if c == delimiter then some ([], cs) else (rest >>= λ parts. some (c ∷ parts.0, parts.1))

abbrev pub starts_quoted : Bytes → Bool
starts_quoted [] = false
starts_quoted (c ∷ cs) = c == b'"'

unfoldable pub ends_quoted : Bytes → Bool
ends_quoted [] = false
ends_quoted (c ∷ cs) = let rest = ends_quoted cs in if is_empty cs then c == b'"' else rest

unfoldable pub unquote : Bytes → Option Bytes
unquote value =
    if leb 2 (length value) && starts_quoted value && ends_quoted value
    then some (take (length value - 2) (drop 1 value))
    else if starts_quoted value || ends_quoted value
    then none
    else some value

-- `unwrap_or`
abbrev pub unwrap_or : Option Bytes → Bytes → Bytes
unwrap_or none default = default
unwrap_or (some text) default = text

-- The age that a part states, if it states one.
unfoldable pub stated_age : Bytes → Option ℕ
stated_age part = split_once b'=' part >>= λ parts.
    if eq_ignore_ascii_case (trim parts.0) (codes "ma")
    then parse_below (2 ^ 64) (unwrap_or (unquote (trim parts.1)) (trim parts.1))
    else none

abbrev pub age_or : ℕ → Option ℕ → ℕ
age_or ma none = ma
age_or ma (some parsed) = parsed

unfoldable pub ma_part : ℕ → Bytes → ℕ
ma_part ma part = age_or ma (stated_age part)

unfoldable pub ma_parts : ℕ → List Bytes → ℕ
ma_parts ma [] = ma
ma_parts ma (part ∷ parts) = ma_parts (ma_part ma part) parts

unfoldable pub alt_svc_candidate : Bytes → ℕ → ℕ → ℕ → StoredCandidate
alt_svc_candidate alt_host alt_port ma now = record {
  source = source_alt_svc;
  alt_host = alt_host;
  alt_port = alt_port;
  priority = none;
  expires_at = saturating_add now (min ma max_retention_secs);
  learned_at = now;
  last_used_at = now;
}

abbrev pub learn : AltSvcUpdate → Option StoredCandidate → ℕ → AltSvcUpdate
learn update none now = update
learn update (some candidate) now =
    if leb candidate.expires_at now
    then record update { remove = update.remove ++ (candidate.alt_host, candidate.alt_port) ∷ [] }
    else record update { candidates = update.candidates ++ candidate ∷ [] }

abbrev pub no_update : AltSvcUpdate
no_update = record { clear = false; candidates = []; remove = [] }

module _ (parse_url : Bytes → Option Url) where
  unfoldable pub parse_alt_authority : Bytes → Bytes → Option (Bytes × ℕ)
  parse_alt_authority authority origin_host =
      let with_host = parse_url (codes "https://" ++ authority ++ codes "/") >>= λ url.
      normalized_host url >>= λ host. url.port >>= λ port. some (host, port) in
      elim authority [
        | [] ↦ with_host
        | c ∷ cs ↦
            if c == b':'
            then (parse_below (2 ^ 16) cs >>= λ port. some (origin_host, port))
            else with_host
      ]

  unfoldable pub parse_alt_svc_parts : List Bytes → Bytes → ℕ → Option StoredCandidate
  parse_alt_svc_parts [] origin_host now = none
  parse_alt_svc_parts (first ∷ parts) origin_host now = split_once b'=' (trim first) >>= λ named.
      if eq_ignore_ascii_case (trim named.0) (codes "h3")
      then (unquote (trim named.1) >>= λ authority.
          parse_alt_authority authority origin_host >>= λ endpoint.
          some
            (alt_svc_candidate endpoint.0 endpoint.1 (ma_parts default_alt_svc_ma_secs parts) now))
      else none

  unfoldable pub parse_alt_svc_item : Bytes → Bytes → ℕ → Option StoredCandidate
  parse_alt_svc_item item origin_host now =
      parse_alt_svc_parts (split_quoted item b';') origin_host now

  unfoldable pub header_items : AltSvcUpdate → List Bytes → Bytes → ℕ → AltSvcUpdate
  header_items update [] origin_host now = update
  header_items update (item ∷ items) origin_host now =
      header_items (learn update (parse_alt_svc_item item origin_host now) now) items origin_host
        now

  unfoldable pub header_values : AltSvcUpdate → List (Option Bytes) → Bytes → ℕ → AltSvcUpdate
  header_values update [] origin_host now = update
  header_values update (none ∷ values) origin_host now = header_values update values origin_host now
  header_values update (some value ∷ values) origin_host now =
      header_values
        (if eq_ignore_ascii_case (trim value) (codes "clear")
          then record update { clear = true }
          else header_items update (split_quoted value b',') origin_host now)
        values origin_host now

  unfoldable pub parse_alt_svc_headers : Url → List (Option Bytes) → ℕ → Option AltSvcUpdate
  parse_alt_svc_headers url headers now = normalized_host url >>= λ origin_host.
      let update = header_values no_update headers origin_host now in
      if update.clear || not (is_empty update.candidates) || not (is_empty update.remove)
      then some update
      else none
