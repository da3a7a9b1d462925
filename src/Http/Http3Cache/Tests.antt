-- ===== src/Http/Http3Cache/Tests.antt =====
-- src/http/http3_cache.rs: a shard of two sources.
use fetch.Common.{ℕ, ◌≡◌, refl, true, none, some, List, [], ◌∷◌, if◌then◌else◌}
use fetch.Common.Text.{eq_ignore_ascii_case, bytes_eq}
use fetch.Http.Http3Cache.{
  StoredCandidate, ShardFile, CacheKey, AltSvcUpdate, Http3CacheCandidate, source_https,
  source_alt_svc, same_endpoint, upsert_candidate, prune_candidate_count, update_shard,
  read_valid_shard, prune_expired_candidates, retain, sort_candidates, insert_sorted, precedes,
}
use fetch.Http.Http3Cache.Upsert.{find_endpoint, find_endpoint-upsert_candidate}
use fetch.Http.Http3Cache.Ranked.{Parted, prune_candidate_count-Parted}
use fetch.Http.Http3Cache.Shard.{Valid, update_shard-Valid}

abbrev from_dns : StoredCandidate
from_dns = record {
  source = source_https;
  alt_host = b'a' ∷ [];
  alt_port = 443;
  priority = some 1;
  expires_at = 500;
  learned_at = 10;
  last_used_at = 20;
}

abbrev from_header : StoredCandidate
from_header = record {
  source = source_alt_svc;
  alt_host = b'A' ∷ [];
  alt_port = 443;
  priority = none;
  expires_at = 300;
  learned_at = 10;
  last_used_at = 30;
}

abbrev key : CacheKey
key = record { origin = b'o' ∷ []; resolver_key = b'r' ∷ [] }

abbrev shard : ShardFile
shard = record {
  version = 1;
  origin = b'o' ∷ [];
  resolver_key = b'r' ∷ [];
  candidates = from_header ∷ from_dns ∷ [];
}

abbrev endpoint : Http3CacheCandidate
endpoint = record { alt_host = b'a' ∷ []; alt_port = 443; priority = none }

abbrev clear_all : AltSvcUpdate
clear_all = record { clear = true; candidates = []; remove = [] }

abbrev inserted : List StoredCandidate → ℕ → List StoredCandidate
inserted candidates now = upsert_candidate candidates from_dns

-- Of the two candidates the one that is not expired stays.
update-shard :
    update_shard (some shard) key inserted 400 ≡ some (record shard { candidates = from_dns ∷ [] })
unfolding update_shard read_valid_shard upsert_candidate same_endpoint eq_ignore_ascii_case
    prune_candidate_count prune_expired_candidates retain sort_candidates insert_sorted precedes
    bytes_eq
update-shard = refl

update_shard-Valid_example : Valid key 400 (record shard { candidates = from_dns ∷ [] })
update_shard-Valid_example = update_shard-Valid (some shard) key inserted 400 update-shard

find_endpoint-upsert_candidate_example :
    find_endpoint (upsert_candidate (from_header ∷ []) from_dns) from_header ≡ (
      if same_endpoint from_dns from_header
      then some from_dns
      else find_endpoint (from_header ∷ []) from_header)
find_endpoint-upsert_candidate_example =
    find_endpoint-upsert_candidate (from_header ∷ []) from_dns from_header

prune_candidate_count-Parted_example :
    (dropped : List StoredCandidate) × Parted
      (from_header ∷ from_dns ∷ [])
      (prune_candidate_count (from_header ∷ from_dns ∷ []))
      dropped
prune_candidate_count-Parted_example = prune_candidate_count-Parted (from_header ∷ from_dns ∷ [])
