-- ===== src/Http/Http3Cache/Global/Removed.antt =====
-- src/http/http3_cache.rs: which shards pruning the cache removes.
use mathlib.Core.List.{Perm}
use mathlib.Core.List.Perm
use fetch.Common.{
  ℕ, ◌-◌, ◌≤◌, ◌⊎◌, ◌≡◌, refl, ◌∙◌, Bool, Bool-cases, true, false, inl, inr, List, [], ◌∷◌, ◌++◌,
  append_assoc, length, length-drop, take, drop, take-append-drop, leb, leb→le, if◌then◌else◌,
  arith,
}
use fetch.Http.Http3Cache.Global.{
  CacheDir, ShardSummary, max_shards, expired_summaries, sort_by_use, excess,
  collect_shard_summaries, prune_global,
}
use fetch.Http.Http3Cache.Global.Sorted.{
  Every, leb-false, Every-mono, Every-append, Every-drop, Every-sort_by_use, sort_by_use-Sorted,
  sort_by_use-Perm, length-sort_by_use, take-Sorted,
}

Perm-middle : (s : ShardSummary) (xs ys : List ShardSummary) → Perm (xs ++ s ∷ ys) (s ∷ (xs ++ ys))
Perm-middle s [] ys = Perm.refl (s ∷ ys)
Perm-middle s (x ∷ xs) ys =
    Perm.trans (Perm.cons x (Perm-middle s xs ys)) (Perm.swap s x (xs ++ ys))

parted_one :
    (s : ShardSummary) (xs ys summaries : List ShardSummary) (b : Bool)
    → Perm (xs ++ ys) summaries
    → Perm ((if b then s ∷ xs else xs) ++ (if b then ys else s ∷ ys)) (s ∷ summaries)
parted_one s xs ys summaries true h = Perm.cons s h
parted_one s xs ys summaries false h = Perm.trans (Perm-middle s xs ys) (Perm.cons s h)

parted-Perm :
    (summaries : List ShardSummary)
    → Perm (expired_summaries true summaries ++ expired_summaries false summaries) summaries
unfolding expired_summaries
parted-Perm [] = Perm.refl []
parted-Perm (s ∷ summaries) =
    parted_one s (expired_summaries true summaries) (expired_summaries false summaries) summaries
      s.expired (parted-Perm summaries)

true_one :
    (s : ShardSummary) (xs : List ShardSummary) (b : Bool)
    → s.expired ≡ b
    → Every (λ s. s.expired ≡ true) xs
    → Every (λ s. s.expired ≡ true) (if b then s ∷ xs else xs)
true_one s xs true e h = (e, h)
true_one s xs false e h = h

false_one :
    (s : ShardSummary) (xs : List ShardSummary) (b : Bool)
    → s.expired ≡ b
    → Every (λ s. s.expired ≡ false) xs
    → Every (λ s. s.expired ≡ false) (if b then xs else s ∷ xs)
false_one s xs true e h = h
false_one s xs false e h = (e, h)

Every-expired :
    (wanted : Bool) (summaries : List ShardSummary)
    → Every (λ s. s.expired ≡ wanted) (expired_summaries wanted summaries)
unfolding expired_summaries
Every-expired wanted [] = tt
Every-expired true (s ∷ summaries) =
    true_one s (expired_summaries true summaries) s.expired refl (Every-expired true summaries)
Every-expired false (s ∷ summaries) =
    false_one s (expired_summaries false summaries) s.expired refl (Every-expired false summaries)

-- A shard that may be removed: it is expired, or the limit of shards is kept, and each of them was used no
-- earlier.
abbrev pub Removable : List ShardSummary → ShardSummary → Type 0
Removable kept r =
    (r.expired ≡ true)
    ⊎ ((length kept ≡ max_shards) × Every (λ k. r.last_used_at ≤ k.last_used_at) kept)

-- How the shards of the cache are parted.
pub record Pruned (summaries removed kept : List ShardSummary) : Type 0 where
  pub together : Perm (removed ++ kept) summaries
  pub few : length kept ≤ max_shards
  pub used : Every (λ k. k.expired ≡ false) kept
  pub reasons : Every (Removable kept) removed

excess-Pruned :
    (live : List ShardSummary)
    → Every (λ k. k.expired ≡ false) live
    → (kept : List ShardSummary) × Pruned live (excess live) kept
unfolding excess
excess-Pruned live h = elim (Bool-cases (leb (length live) max_shards)) [
  | inl few ↦ rw few (
    live,
    record {
      together = Perm.refl live;
      few = leb→le (length live) max_shards few;
      used = h;
      reasons = tt;
    },
  )
  | inr many ↦
      let n : ℕ = length live - max_shards in
      let sorted : List ShardSummary = sort_by_use live in
      let more = leb-false (length live) max_shards many in
      let size : length (drop n sorted) ≡ max_shards =
        length-drop n sorted ∙ omega (arith, length-sort_by_use live, more) in
      rw many (
        drop n sorted,
        record {
          together = rw (take-append-drop n sorted) (sort_by_use-Perm live);
          few = omega (arith, size);
          used =
              Every-drop (λ k. k.expired ≡ false) n sorted
                (Every-sort_by_use (λ k. k.expired ≡ false) live h);
          reasons =
              Every-mono (take n sorted) (λ r o. inr (size, o))
                (take-Sorted n sorted (sort_by_use-Sorted live));
        },
      )
]

-- Pruning parts the shards that are found into those that are removed and those that are kept. The
-- kept ones are in use and no more than the limit. A removed one is expired, or the limit is reached
-- and each kept one was used no earlier.
pub prune_global-Pruned :
    (dir : CacheDir) (now : ℕ)
    → (kept : List ShardSummary) × Pruned
        (collect_shard_summaries dir now)
        (prune_global dir now)
        kept
unfolding prune_global
prune_global-Pruned dir now =
    let summaries : List ShardSummary = collect_shard_summaries dir now in
    let gone : List ShardSummary = expired_summaries true summaries in
    let live : List ShardSummary = expired_summaries false summaries in
    let (kept, spared) = excess-Pruned live (Every-expired false summaries) in
    (
      kept,
      record {
        together =
            rw (append_assoc gone (excess live) kept)
              (Perm.trans (Perm.append_left gone spared.together) (parted-Perm summaries));
        few = spared.few;
        used = spared.used;
        reasons =
            Every-append (Removable kept) gone (excess live)
              (Every-mono gone (λ r e. inl e) (Every-expired true summaries)) spared.reasons;
      },
    )
