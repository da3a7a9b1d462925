-- ===== src/Http/Http3Cache/Shard.antt =====
-- src/http/http3_cache.rs: what an update leaves in the file of a shard.
use fetch.Common.{
  ℕ, ◌≤◌, ◌<◌, ◌≡◌, refl, sym, Bool, Bool-cases, true, false, not, ◌&&◌, Option, none, some,
  some_inj, Option-cases, List, [], ◌∷◌, Bytes, is_empty, length, ltb, ltb→lt, ◌==◌, ==→eq, eq→==,
  inl, inr, arith,
}
use fetch.Common.Text.{bytes_eq, bytes_eq→eq, bytes_eq_self, &&-both}
use fetch.Http.Http3Cache.{
  StoredCandidate, ShardFile, CacheKey, cache_version, read_valid_shard, unwrap_or_new,
  update_shard, prune_candidate_count, prune_expired_candidates, retain, Http3CacheCandidate,
  matches_any, remove_update, remove_all, is_removed, is_alt_svc, AltSvcUpdate, alt_svc_update,
  upsert_all,
}
use fetch.Http.Http3Cache.Prune.{
  Every, Every-mono, Every-retain, Every-prune_candidate_count, prune_candidate_count-Ordered,
}

not-true : (b : Bool) → not b ≡ true → b ≡ false
not-true true h = cc
not-true false h = refl

-- A shard as the cache may leave it at a time.
pub record Valid (key : CacheKey) (now : ℕ) (shard : ShardFile) : Type 0 where
  pub version : shard.version ≡ cache_version
  pub origin : shard.origin ≡ key.origin
  pub resolver_key : shard.resolver_key ≡ key.resolver_key
  pub nonempty : 0 < length shard.candidates
  pub few : length shard.candidates ≤ 4
  pub fresh : Every (λ c. now < c.expires_at) shard.candidates

-- The shard that an update starts from.
abbrev Keyed : CacheKey → ShardFile → Type 0
Keyed key shard =
    (shard.version ≡ cache_version)
    × (shard.origin ≡ key.origin)
    × (shard.resolver_key ≡ key.resolver_key)

read_valid_shard-Keyed :
    (file : Option ShardFile) (key : CacheKey)
    → Keyed key (unwrap_or_new (read_valid_shard file key) key)
unfolding read_valid_shard
read_valid_shard-Keyed none key = (refl, refl, refl)
read_valid_shard-Keyed (some shard) key =
    let test : Bool =
      ((shard.version == cache_version) && bytes_eq shard.origin key.origin)
      && bytes_eq shard.resolver_key key.resolver_key in
    elim (Bool-cases test) [
      | inl same ↦
          let (p, r) =
            &&-both ((shard.version == cache_version) && bytes_eq shard.origin key.origin)
              (bytes_eq shard.resolver_key key.resolver_key) same in
          let (v, o) =
            &&-both (shard.version == cache_version) (bytes_eq shard.origin key.origin) p in
          rw same (
            ==→eq shard.version cache_version v,
            bytes_eq→eq shard.origin key.origin o,
            bytes_eq→eq shard.resolver_key key.resolver_key r,
          )
      | inr other ↦ rw other (refl, refl, refl)
    ]

is_empty-length :
    (candidates : List StoredCandidate) → is_empty candidates ≡ false → 0 < length candidates
is_empty-length [] h = cc
is_empty-length (c ∷ candidates) h = omega arith

pruned-fresh :
    (candidates : List StoredCandidate) (now : ℕ)
    → Every
        (λ c. now < c.expires_at)
        (prune_candidate_count (prune_expired_candidates candidates now))
unfolding prune_expired_candidates
pruned-fresh candidates now =
    Every-prune_candidate_count (λ c. now < c.expires_at) _
      (Every-mono _ (λ c h. ltb→lt now c.expires_at h)
        (Every-retain (λ c. ltb now c.expires_at) candidates))

-- Whatever the file held and whatever the update does to the candidates, the shard that is left in the
-- file is one of the key, with one to four candidates, none of them expired.
pub update_shard-Valid :
    (file : Option ShardFile) (key : CacheKey)
    (update : List StoredCandidate → ℕ → List StoredCandidate) (now : ℕ) {shard : ShardFile}
    → update_shard file key update now ≡ some shard
    → Valid key now shard
unfolding update_shard
update_shard-Valid file key update now {shard} e =
    let start : ShardFile = unwrap_or_new (read_valid_shard file key) key in
    let pruned : List StoredCandidate =
      prune_candidate_count (prune_expired_candidates (update start.candidates now) now) in
    let (v, o, r) = read_valid_shard-Keyed file key in
    let n =
      prune_candidate_count-Ordered (prune_expired_candidates (update start.candidates now) now) in
    elim (Bool-cases (is_empty pruned)) [
      | inl empty ↦ let q = rw empty at e in cc
      | inr full ↦
          let q : record start { candidates = pruned } ≡ shard = some_inj (rw full at e) in
          let valid : Valid key now (record start { candidates = pruned }) = record {
            version = v;
            origin = o;
            resolver_key = r;
            nonempty = is_empty-length pruned full;
            few = omega (arith, n.0);
            fresh = pruned-fresh (update start.candidates now) now;
          } in
          rw (sym q) valid
    ]

read_own_shard :
    (key : CacheKey) (shard : ShardFile)
    → Keyed key shard
    → read_valid_shard (some shard) key ≡ some shard
unfolding read_valid_shard
read_own_shard key shard (v, o, r) =
    rw
      (
        eq→== shard.version cache_version v,
        o,
        r,
        bytes_eq_self key.origin,
        bytes_eq_self key.resolver_key,
      )
      refl

read_valid_shard-none : (key : CacheKey) → read_valid_shard none key ≡ none
unfolding read_valid_shard
read_valid_shard-none key = refl

-- What an update leaves is read again under its key.
pub read_valid_shard-update_shard :
    (file : Option ShardFile) (key : CacheKey)
    (update : List StoredCandidate → ℕ → List StoredCandidate) (now : ℕ)
    → read_valid_shard (update_shard file key update now) key ≡ update_shard file key update now
read_valid_shard-update_shard file key update now =
    elim (Option-cases (update_shard file key update now)) [
      | inl e ↦ rw e (read_valid_shard-none key)
      | inr (shard, e) ↦
          let valid = update_shard-Valid file key update now e in
          rw e (read_own_shard key shard (valid.version, valid.origin, valid.resolver_key))
    ]

-- Removed candidates are not stored afterwards, under any source.
pub remove_update-Every :
    (removed : List Http3CacheCandidate) (candidates : List StoredCandidate) (now : ℕ)
    → Every (λ c. matches_any removed c ≡ false) (remove_update removed candidates now)
unfolding remove_update
remove_update-Every removed candidates now =
    Every-mono _ (λ c h. not-true (matches_any removed c) h)
      (Every-retain (λ c. not (matches_any removed c)) (prune_expired_candidates candidates now))

retain-Every :
    (P : StoredCandidate → Type 0) (test : StoredCandidate → Bool)
    (candidates : List StoredCandidate)
    → Every P candidates
    → Every P (retain test candidates)
unfolding retain
retain-Every P test [] h = tt
retain-Every P test (c ∷ candidates) (h, more) = elim (Bool-cases (test c)) [
  | inl kept ↦ rw kept (h, retain-Every P test candidates more)
  | inr gone ↦ rw gone (retain-Every P test candidates more)
]

remove_all-Every :
    (P : StoredCandidate → Type 0) (remove : List (Bytes × ℕ)) (candidates : List StoredCandidate)
    → Every P candidates
    → Every P (remove_all remove candidates)
unfolding remove_all
remove_all-Every P [] candidates h = h
remove_all-Every P ((alt_host, alt_port) ∷ more) candidates h =
    remove_all-Every P more _
      (retain-Every P (λ c. not (is_removed alt_host alt_port c)) candidates h)

-- An `Alt-Svc` header that clears and advertises nothing leaves only what DNS advertised.
pub alt_svc_update-cleared :
    (update : AltSvcUpdate) (candidates : List StoredCandidate) (now : ℕ)
    → update.clear ≡ true
    → update.candidates ≡ []
    → Every (λ c. is_alt_svc c ≡ false) (alt_svc_update update candidates now)
unfolding alt_svc_update upsert_all
alt_svc_update-cleared update candidates now clear none_new =
    let fresh : List StoredCandidate = prune_expired_candidates candidates now in
    let dns : Every (λ c. is_alt_svc c ≡ false) (retain (λ c. not (is_alt_svc c)) fresh) =
      Every-mono _ (λ c h. not-true (is_alt_svc c) h)
        (Every-retain (λ c. not (is_alt_svc c)) fresh) in
    rw (clear, none_new)
      (Every-prune_candidate_count (λ c. is_alt_svc c ≡ false) _
        (remove_all-Every (λ c. is_alt_svc c ≡ false) update.remove _ dns))
