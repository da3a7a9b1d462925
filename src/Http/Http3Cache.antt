-- ===== src/Http/Http3Cache.antt =====
-- src/http/http3_cache.rs: the alternative endpoints of an origin, as one shard of the cache keeps them.
pub mod Upsert
pub mod Prune
pub mod Ranked
pub mod Shard
pub mod Global
pub mod AltSvc
mod Tests
use fetch.Common.{
  ℕ, ◌+◌, ◌-◌, ◌*◌, ◌^◌, Bool, true, false, not, ◌&&◌, ◌||◌, Option, none, some, List, [], ◌∷◌,
  ◌++◌, Bytes, min, take, is_empty, ltb, leb, ◌==◌, if◌then◌else◌,
}
use fetch.Common.Text.{bytes_eq, eq_ignore_ascii_case}

abbrev pub cache_version : ℕ
cache_version = 1

abbrev pub max_candidates_per_origin : ℕ
max_candidates_per_origin = 4

abbrev pub max_retention_secs : ℕ
max_retention_secs = 7 * 24 * 60 * 60

abbrev pub access_update_interval_secs : ℕ
access_update_interval_secs = 60 * 60

-- "https"
abbrev pub source_https : Bytes
source_https = b'h' ∷ b't' ∷ b't' ∷ b'p' ∷ b's' ∷ []

-- "alt-svc"
abbrev pub source_alt_svc : Bytes
source_alt_svc = b'a' ∷ b'l' ∷ b't' ∷ b'-' ∷ b's' ∷ b'v' ∷ b'c' ∷ []

pub record Http3CacheCandidate : Type 0 where
  pub alt_host : Bytes
  pub alt_port : ℕ
  pub priority : Option ℕ

pub record StoredCandidate : Type 0 where
  pub source : Bytes
  pub alt_host : Bytes
  pub alt_port : ℕ
  pub priority : Option ℕ
  pub expires_at : ℕ
  pub learned_at : ℕ
  pub last_used_at : ℕ

pub record ShardFile : Type 0 where
  pub version : ℕ
  pub origin : Bytes
  pub resolver_key : Bytes
  pub candidates : List StoredCandidate

pub record CacheKey : Type 0 where
  pub origin : Bytes
  pub resolver_key : Bytes

pub record AltSvcUpdate : Type 0 where
  pub clear : Bool
  pub candidates : List StoredCandidate
  pub remove : List (Bytes × ℕ)

-- `u64::saturating_add`
abbrev pub saturating_add : ℕ → ℕ → ℕ
saturating_add a b = min (a + b) (2 ^ 64 - 1)

-- `Vec::retain`
pub retain : (StoredCandidate → Bool) → List StoredCandidate → List StoredCandidate
retain test [] = []
retain test (c ∷ candidates) =
    let rest = retain test candidates in if test c then c ∷ rest else rest

-- The endpoints that `upsert_candidate` takes for one.
pub same_endpoint : StoredCandidate → StoredCandidate → Bool
same_endpoint a b =
    (bytes_eq a.source b.source && eq_ignore_ascii_case a.alt_host b.alt_host)
    && (a.alt_port == b.alt_port)

pub upsert_candidate : List StoredCandidate → StoredCandidate → List StoredCandidate
upsert_candidate [] candidate = candidate ∷ []
upsert_candidate (existing ∷ candidates) candidate =
    let rest = upsert_candidate candidates candidate in
    if same_endpoint existing candidate then candidate ∷ candidates else existing ∷ rest

pub prune_expired_candidates : List StoredCandidate → ℕ → List StoredCandidate
prune_expired_candidates candidates now = retain (λ c. ltb now c.expires_at) candidates

-- `unwrap_or(u16::MAX)`
abbrev pub priority_or_max : Option ℕ → ℕ
priority_or_max none = 2 ^ 16 - 1
priority_or_max (some p) = p

-- The comparison does not say `Greater`: the priority goes first, then the later use, then the later
-- end.
pub precedes : StoredCandidate → StoredCandidate → Bool
precedes a b =
    let p = priority_or_max a.priority in
    let q = priority_or_max b.priority in
    ltb p q
    || ((p == q)
        && (ltb b.last_used_at a.last_used_at
            || ((a.last_used_at == b.last_used_at) && leb b.expires_at a.expires_at)))

-- `Vec::sort_by`, which keeps the order of equals.
pub insert_sorted : StoredCandidate → List StoredCandidate → List StoredCandidate
insert_sorted a [] = a ∷ []
insert_sorted a (b ∷ candidates) =
    let rest = insert_sorted a candidates in if precedes a b then a ∷ (b ∷ candidates) else b ∷ rest

pub sort_candidates : List StoredCandidate → List StoredCandidate
sort_candidates [] = []
sort_candidates (c ∷ candidates) = insert_sorted c (sort_candidates candidates)

pub prune_candidate_count : List StoredCandidate → List StoredCandidate
prune_candidate_count candidates = take max_candidates_per_origin (sort_candidates candidates)

pub matches_stored : Http3CacheCandidate → StoredCandidate → Bool
matches_stored c stored =
    eq_ignore_ascii_case c.alt_host stored.alt_host && (c.alt_port == stored.alt_port)

pub matches_any : List Http3CacheCandidate → StoredCandidate → Bool
matches_any [] stored = false
matches_any (c ∷ candidates) stored = matches_stored c stored || matches_any candidates stored

-- `read_valid_shard` of what the file holds, `none` where there is no file or it is not a shard.
pub read_valid_shard : Option ShardFile → CacheKey → Option ShardFile
read_valid_shard none key = none
read_valid_shard (some shard) key =
    if ((shard.version == cache_version) && bytes_eq shard.origin key.origin)
      && bytes_eq shard.resolver_key key.resolver_key
    then some shard
    else none

abbrev pub unwrap_or_new : Option ShardFile → CacheKey → ShardFile
unwrap_or_new (some shard) key = shard
unwrap_or_new none key = record {
  version = cache_version;
  origin = key.origin;
  resolver_key = key.resolver_key;
  candidates = [];
}

-- `update_shard` under its lock, where each step of the file system succeeds: what the file holds
-- afterwards. Each `update` of the source changes the candidates only.
pub update_shard :
    Option ShardFile
    → CacheKey
    → (List StoredCandidate → ℕ → List StoredCandidate)
    → ℕ
    → Option ShardFile
update_shard file key update now =
    let shard = unwrap_or_new (read_valid_shard file key) key in
    let candidates =
      prune_candidate_count (prune_expired_candidates (update shard.candidates now) now) in
    if is_empty candidates then none else some (record shard { candidates = candidates })

-- `candidates`: whether the recency of a hit is to be renewed, and the renewal.
pub update_recency : List StoredCandidate → ℕ → Bool
update_recency [] now = false
update_recency (c ∷ candidates) now =
    leb access_update_interval_secs (now - c.last_used_at) || update_recency candidates now

abbrev pub to_candidate : StoredCandidate → Http3CacheCandidate
to_candidate c = record { alt_host = c.alt_host; alt_port = c.alt_port; priority = c.priority }

pub touch : List Http3CacheCandidate → ℕ → List StoredCandidate → List StoredCandidate
touch touched now [] = []
touch touched now (stored ∷ candidates) =
    (if matches_any touched stored then record stored { last_used_at = now } else stored)
    ∷ touch touched now candidates

pub touch_update : List Http3CacheCandidate → List StoredCandidate → ℕ → List StoredCandidate
touch_update touched candidates now = touch touched now (prune_expired_candidates candidates now)

pub remove_update : List Http3CacheCandidate → List StoredCandidate → ℕ → List StoredCandidate
remove_update removed candidates now =
    retain (λ stored. not (matches_any removed stored)) (prune_expired_candidates candidates now)

-- The endpoints that HTTPS records advertise: priority, host, port and seconds to live.
pub https_candidate : (ℕ × Bytes × ℕ × ℕ) → ℕ → StoredCandidate
https_candidate (priority, alt_host, alt_port, ttl) now = record {
  source = source_https;
  alt_host = alt_host;
  alt_port = alt_port;
  priority = some priority;
  expires_at = saturating_add now (min ttl max_retention_secs);
  learned_at = now;
  last_used_at = now;
}

pub upsert_all : List StoredCandidate → List StoredCandidate → List StoredCandidate
upsert_all candidates [] = candidates
upsert_all candidates (c ∷ more) = upsert_all (upsert_candidate candidates c) more

pub https_candidates : List (ℕ × Bytes × ℕ × ℕ) → ℕ → List StoredCandidate
https_candidates [] now = []
https_candidates (found ∷ more) now = https_candidate found now ∷ https_candidates more now

pub https_update : List (ℕ × Bytes × ℕ × ℕ) → List StoredCandidate → ℕ → List StoredCandidate
https_update found candidates now =
    prune_candidate_count
      (upsert_all (prune_expired_candidates candidates now) (https_candidates found now))

pub is_alt_svc : StoredCandidate → Bool
is_alt_svc c = bytes_eq c.source source_alt_svc

abbrev pub cleared : Bool → List StoredCandidate → List StoredCandidate
cleared false candidates = candidates
cleared true candidates = retain (λ c. not (is_alt_svc c)) candidates

pub is_removed : Bytes → ℕ → StoredCandidate → Bool
is_removed alt_host alt_port c =
    (is_alt_svc c && eq_ignore_ascii_case c.alt_host alt_host) && (c.alt_port == alt_port)

pub remove_all : List (Bytes × ℕ) → List StoredCandidate → List StoredCandidate
remove_all [] candidates = candidates
remove_all ((alt_host, alt_port) ∷ more) candidates =
    remove_all more (retain (λ c. not (is_removed alt_host alt_port c)) candidates)

pub alt_svc_update : AltSvcUpdate → List StoredCandidate → ℕ → List StoredCandidate
alt_svc_update update candidates now =
    let kept = cleared update.clear (prune_expired_candidates candidates now) in
    prune_candidate_count (upsert_all (remove_all update.remove kept) update.candidates)
