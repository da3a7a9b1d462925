-- ===== src/Http/Http3Cache/Prune.antt =====
-- src/http/http3_cache.rs: which candidates are kept.
use mathlib.Core.List.{Perm}
use mathlib.Core.List.Perm
use fetch.Common.{
  ℕ, zero, suc, ◌≡◌, refl, ap, ◌∙◌, Bool, Bool-cases, true, false, ◌&&◌, ◌||◌, inl, inr, List, [],
  ◌∷◌, ◌++◌, min, length, take, drop, length-take, take-append-drop, ltb, leb, ◌==◌, arith,
}
use fetch.Http.Http3Cache.{
  StoredCandidate, precedes, priority_or_max, insert_sorted, sort_candidates, prune_candidate_count,
  retain,
}

-- A property of each candidate.
abbrev pub Every : (StoredCandidate → Type 0) → List StoredCandidate → Type 0
Every P [] = Unit
Every P (c ∷ candidates) = P c × Every P candidates

-- Each candidate precedes those behind it.
abbrev pub Ordered : List StoredCandidate → Type 0
Ordered [] = Unit
Ordered (c ∷ candidates) = Every (λ d. precedes c d ≡ true) candidates × Ordered candidates

order_total :
    (p q x y u v : ℕ)
    → (ltb p q || ((p == q) && (ltb y x || ((x == y) && leb v u)))) ≡ false
    → (ltb q p || ((q == p) && (ltb x y || ((y == x) && leb u v)))) ≡ true
order_total p q x y u v h = ground arith

order_trans :
    (p q r x y z u v w : ℕ)
    → (ltb p q || ((p == q) && (ltb y x || ((x == y) && leb v u)))) ≡ true
    → (ltb q r || ((q == r) && (ltb z y || ((y == z) && leb w v)))) ≡ true
    → (ltb p r || ((p == r) && (ltb z x || ((x == z) && leb w u)))) ≡ true
order_trans p q r x y z u v w h k = ground arith

precedes_total : (a b : StoredCandidate) → precedes a b ≡ false → precedes b a ≡ true
unfolding precedes
precedes_total a b h =
    order_total (priority_or_max a.priority) (priority_or_max b.priority) a.last_used_at
      b.last_used_at a.expires_at b.expires_at h

precedes_trans :
    (a b c : StoredCandidate) → precedes a b ≡ true → precedes b c ≡ true → precedes a c ≡ true
unfolding precedes
precedes_trans a b c h k =
    order_trans (priority_or_max a.priority) (priority_or_max b.priority)
      (priority_or_max c.priority) a.last_used_at b.last_used_at c.last_used_at a.expires_at
      b.expires_at c.expires_at h k

pub Every-mono :
    {P Q : StoredCandidate → Type 0} (candidates : List StoredCandidate)
    → ((c : StoredCandidate) → P c → Q c)
    → Every P candidates
    → Every Q candidates
Every-mono [] f h = tt
Every-mono (c ∷ candidates) f (h, more) = (f c h, Every-mono candidates f more)

Every-insert_sorted :
    (P : StoredCandidate → Type 0) (a : StoredCandidate) (candidates : List StoredCandidate)
    → P a
    → Every P candidates
    → Every P (insert_sorted a candidates)
unfolding insert_sorted
Every-insert_sorted P a [] h k = (h, tt)
Every-insert_sorted P a (b ∷ candidates) h (k, more) = elim (Bool-cases (precedes a b)) [
  | inl first ↦ rw first (h, (k, more))
  | inr later ↦ rw later (k, Every-insert_sorted P a candidates h more)
]

insert_sorted-Ordered :
    (a : StoredCandidate) (candidates : List StoredCandidate)
    → Ordered candidates
    → Ordered (insert_sorted a candidates)
unfolding insert_sorted
insert_sorted-Ordered a [] h = (tt, tt)
insert_sorted-Ordered a (b ∷ candidates) (h, o) = elim (Bool-cases (precedes a b)) [
  | inl first ↦
      rw first ((first, Every-mono candidates (λ c k. precedes_trans a b c first k) h), (h, o))
  | inr later ↦ rw later (
    Every-insert_sorted (λ d. precedes b d ≡ true) a candidates (precedes_total a b later) h,
    insert_sorted-Ordered a candidates o,
  )
]

insert_sorted-Perm :
    (a : StoredCandidate) (candidates : List StoredCandidate)
    → Perm (insert_sorted a candidates) (a ∷ candidates)
unfolding insert_sorted
insert_sorted-Perm a [] = Perm.refl (a ∷ [])
insert_sorted-Perm a (b ∷ candidates) = elim (Bool-cases (precedes a b)) [
  | inl first ↦ rw first (Perm.refl (a ∷ (b ∷ candidates)))
  | inr later ↦
      rw later
        (Perm.trans (Perm.cons b (insert_sorted-Perm a candidates)) (Perm.swap a b candidates))
]

pub sort_candidates-Ordered :
    (candidates : List StoredCandidate) → Ordered (sort_candidates candidates)
unfolding sort_candidates
sort_candidates-Ordered [] = tt
sort_candidates-Ordered (c ∷ candidates) =
    insert_sorted-Ordered c (sort_candidates candidates) (sort_candidates-Ordered candidates)

pub sort_candidates-Perm :
    (candidates : List StoredCandidate) → Perm (sort_candidates candidates) candidates
unfolding sort_candidates
sort_candidates-Perm [] = Perm.refl []
sort_candidates-Perm (c ∷ candidates) =
    Perm.trans (insert_sorted-Perm c (sort_candidates candidates))
      (Perm.cons c (sort_candidates-Perm candidates))

length-insert_sorted :
    (a : StoredCandidate) (candidates : List StoredCandidate)
    → length (insert_sorted a candidates) ≡ suc (length candidates)
unfolding insert_sorted
length-insert_sorted a [] = refl
length-insert_sorted a (b ∷ candidates) = elim (Bool-cases (precedes a b)) [
  | inl first ↦ rw first
  | inr later ↦ rw later (ap suc (length-insert_sorted a candidates))
]

length-sort_candidates :
    (candidates : List StoredCandidate) → length (sort_candidates candidates) ≡ length candidates
unfolding sort_candidates
length-sort_candidates [] = refl
length-sort_candidates (c ∷ candidates) =
    length-insert_sorted c (sort_candidates candidates) ∙ ap suc (length-sort_candidates candidates)

-- Pruning keeps four candidates, or all where there are fewer, and each that it keeps precedes each
-- that it drops: the kept and the dropped ones together are the given ones in order.
pub prune_candidate_count-Ordered :
    (candidates : List StoredCandidate)
    → (length (prune_candidate_count candidates) ≡ min 4 (length candidates))
      × (dropped : List StoredCandidate) × Perm
          (prune_candidate_count candidates ++ dropped)
          candidates
      × Ordered (prune_candidate_count candidates ++ dropped)
unfolding prune_candidate_count
prune_candidate_count-Ordered candidates =
    let sorted : List StoredCandidate = sort_candidates candidates in
    (
      length-take 4 sorted ∙ ap (λ (n : ℕ). min 4 n) (length-sort_candidates candidates),
      drop 4 sorted,
      rw (take-append-drop 4 sorted) (sort_candidates-Perm candidates),
      rw (take-append-drop 4 sorted) (sort_candidates-Ordered candidates),
    )

-- What pruning keeps of a property of each candidate.
Every-take :
    (P : StoredCandidate → Type 0) (n : ℕ) (candidates : List StoredCandidate)
    → Every P candidates
    → Every P (take n candidates)
Every-take P zero candidates h = tt
Every-take P (suc n) [] h = tt
Every-take P (suc n) (c ∷ candidates) (h, more) = (h, Every-take P n candidates more)

Every-sort_candidates :
    (P : StoredCandidate → Type 0) (candidates : List StoredCandidate)
    → Every P candidates
    → Every P (sort_candidates candidates)
unfolding sort_candidates
Every-sort_candidates P [] h = tt
Every-sort_candidates P (c ∷ candidates) (h, more) =
    Every-insert_sorted P c (sort_candidates candidates) h (Every-sort_candidates P candidates more)

pub Every-prune_candidate_count :
    (P : StoredCandidate → Type 0) (candidates : List StoredCandidate)
    → Every P candidates
    → Every P (prune_candidate_count candidates)
unfolding prune_candidate_count
Every-prune_candidate_count P candidates h =
    Every-take P 4 (sort_candidates candidates) (Every-sort_candidates P candidates h)

pub Every-retain :
    (test : StoredCandidate → Bool) (candidates : List StoredCandidate)
    → Every (λ c. test c ≡ true) (retain test candidates)
unfolding retain
Every-retain test [] = tt
Every-retain test (c ∷ candidates) = elim (Bool-cases (test c)) [
  | inl kept ↦ rw kept (kept, Every-retain test candidates)
  | inr gone ↦ rw gone (Every-retain test candidates)
]
