-- ===== src/Http/Http3Cache/Ranked.antt =====
-- src/http/http3_cache.rs: the rank of candidates, apart from the comparison of the source.
use mathlib.Core.List.{Perm}
use fetch.Common.{
  ℕ, ◌≤◌, ◌≡◌, refl, sym, ◌∙◌, Bool, Bool-cases, true, false, ◌&&◌, ◌||◌, inl, inr, Option, none,
  some, List, [], ◌∷◌, ◌++◌, min, length, take, drop, take-append-drop, ltb, leb, ◌==◌, arith,
}
use fetch.Http.Http3Cache.{
  StoredCandidate, precedes, priority_or_max, insert_sorted, sort_candidates, prune_candidate_count,
  retain,
}
use fetch.Http.Http3Cache.Prune.{
  Every, Every-mono, Ordered, prune_candidate_count-Ordered, sort_candidates-Ordered,
  sort_candidates-Perm,
}

-- The place of a priority: the lower ones first, and a candidate without one last.
abbrev pub rank : Option ℕ → ℕ
rank (some priority) = priority
rank none = 65535

-- The lower priority is kept; of two that are equal in it, the later used one; of two that are equal in
-- this too, the one that is over later.
abbrev pub Outranks : StoredCandidate → StoredCandidate → Type 0
Outranks a b =
    (rank a.priority ≤ rank b.priority)
    × (rank a.priority ≡ rank b.priority → b.last_used_at ≤ a.last_used_at)
    × (rank a.priority ≡ rank b.priority
        → a.last_used_at ≡ b.last_used_at
        → b.expires_at ≤ a.expires_at)

-- Each candidate outranks those behind it.
abbrev pub Ranked : List StoredCandidate → Type 0
Ranked [] = Unit
Ranked (c ∷ candidates) = Every (Outranks c) candidates × Ranked candidates

-- Two candidates that neither priority nor times tell apart.
abbrev pub ties : StoredCandidate → StoredCandidate → Bool
ties a b =
    ((rank a.priority == rank b.priority) && (a.last_used_at == b.last_used_at))
    && (a.expires_at == b.expires_at)

first_le :
    (p q x y u v : ℕ) → (ltb p q || ((p == q) && (ltb y x || ((x == y) && leb v u)))) ≡ true → p ≤ q
first_le p q x y u v h = ground arith

second_le :
    (p q x y u v : ℕ)
    → (ltb p q || ((p == q) && (ltb y x || ((x == y) && leb v u)))) ≡ true
    → p ≡ q
    → y ≤ x
second_le p q x y u v h e = ground arith

third_le :
    (p q x y u v : ℕ)
    → (ltb p q || ((p == q) && (ltb y x || ((x == y) && leb v u)))) ≡ true
    → p ≡ q
    → x ≡ y
    → v ≤ u
third_le p q x y u v h e f = ground arith

tied :
    (r p q z x y w u v : ℕ)
    → ((r == p) && (z == x)) && (w == u) ≡ true
    → ((r == q) && (z == y)) && (w == v) ≡ true
    → (ltb p q || ((p == q) && (ltb y x || ((x == y) && leb v u)))) ≡ true
tied r p q z x y w u v h k = ground arith

rank-eq : (priority : Option ℕ) → priority_or_max priority ≡ rank priority
rank-eq none = refl
rank-eq (some priority) = refl

precedes-Outranks : (a b : StoredCandidate) → precedes a b ≡ true → Outranks a b
unfolding precedes
precedes-Outranks a b h =
    let p : ℕ = priority_or_max a.priority in
    let q : ℕ = priority_or_max b.priority in
    rw (sym (rank-eq a.priority), sym (rank-eq b.priority))
      (
        first_le p q a.last_used_at b.last_used_at a.expires_at b.expires_at h,
        second_le p q a.last_used_at b.last_used_at a.expires_at b.expires_at h,
        third_le p q a.last_used_at b.last_used_at a.expires_at b.expires_at h,
      )

ties-precedes : (c a b : StoredCandidate) → ties c a ≡ true → ties c b ≡ true → precedes a b ≡ true
unfolding precedes
ties-precedes c a b h k =
    rw (rank-eq a.priority, rank-eq b.priority)
      (tied (rank c.priority) (rank a.priority) (rank b.priority) c.last_used_at a.last_used_at
        b.last_used_at c.expires_at a.expires_at b.expires_at h k)

Ordered-Ranked : (candidates : List StoredCandidate) → Ordered candidates → Ranked candidates
Ordered-Ranked [] h = tt
Ordered-Ranked (c ∷ candidates) (h, o) =
    (Every-mono candidates (λ d k. precedes-Outranks c d k) h, Ordered-Ranked candidates o)

-- Two candidates change places where not both tie.
retain-swap :
    (test : StoredCandidate → Bool) (a b : StoredCandidate) (candidates : List StoredCandidate)
    → (test a ≡ true → test b ≡ true → false ≡ true)
    → retain test (a ∷ (b ∷ candidates)) ≡ retain test (b ∷ (a ∷ candidates))
unfolding retain
retain-swap test a b candidates h = elim (Bool-cases (test a)) [
  | inr e ↦ rw e refl
  | inl e ↦ elim (Bool-cases (test b)) [ inr f ↦ rw (e, f) refl | inl f ↦ let q = h e f in cc ]
]

retain-cons :
    (test : StoredCandidate → Bool) (b : StoredCandidate) (xs ys : List StoredCandidate)
    → retain test xs ≡ retain test ys
    → retain test (b ∷ xs) ≡ retain test (b ∷ ys)
unfolding retain
retain-cons test b xs ys e = rw e refl

retain-insert_sorted :
    (c a : StoredCandidate) (candidates : List StoredCandidate)
    → retain (ties c) (insert_sorted a candidates) ≡ retain (ties c) (a ∷ candidates)
unfolding insert_sorted
retain-insert_sorted c a [] = refl
retain-insert_sorted c a (b ∷ candidates) = elim (Bool-cases (precedes a b)) [
  | inl first ↦ rw first refl
  | inr later ↦ rw later (
      retain-cons (ties c) b (insert_sorted a candidates) (a ∷ candidates)
        (retain-insert_sorted c a candidates)
      ∙ sym (retain-swap (ties c) a b candidates (λ h k. sym later ∙ ties-precedes c a b h k)))
]

retain-sort_candidates :
    (c : StoredCandidate) (candidates : List StoredCandidate)
    → retain (ties c) (sort_candidates candidates) ≡ retain (ties c) candidates
unfolding sort_candidates
retain-sort_candidates c [] = refl
retain-sort_candidates c (a ∷ candidates) =
    retain-insert_sorted c a (sort_candidates candidates)
    ∙ retain-cons (ties c) a (sort_candidates candidates) candidates
        (retain-sort_candidates c candidates)

-- How candidates are parted: all that fit are kept, each kept one outranks each dropped one, and those
-- that nothing tells apart stay in the order in which they were given.
pub record Parted (candidates kept dropped : List StoredCandidate) : Type 0 where
  pub count : length kept ≡ min 4 (length candidates)
  pub together : Perm (kept ++ dropped) candidates
  pub ranked : Ranked (kept ++ dropped)
  pub stable :
      (c : StoredCandidate) → retain (ties c) (kept ++ dropped) ≡ retain (ties c) candidates

-- Pruning keeps four candidates, or all where there are fewer. The kept ones and then the dropped ones
-- are the given ones in the order of their rank: the lower priority first, of equals in it the later used
-- one, and of equals in this too the one that is over later; those that are equal in all three stay in
-- the order in which they were given.
pub prune_candidate_count-Parted :
    (candidates : List StoredCandidate)
    → (dropped : List StoredCandidate) × Parted candidates
        (prune_candidate_count candidates)
        dropped
unfolding prune_candidate_count
prune_candidate_count-Parted candidates =
    let sorted : List StoredCandidate = sort_candidates candidates in
    let whole : take 4 sorted ++ drop 4 sorted ≡ sorted = take-append-drop 4 sorted in
    (
      drop 4 sorted,
      record {
        count = (prune_candidate_count-Ordered candidates).0;
        together = rw whole (sort_candidates-Perm candidates);
        ranked = rw whole (Ordered-Ranked sorted (sort_candidates-Ordered candidates));
        stable = λ c. rw whole (retain-sort_candidates c candidates);
      },
    )
