-- ===== src/Http/Http3Cache/Global/Sorted.antt =====
-- src/http/http3_cache.rs: the shards of the cache by their last use.
use mathlib.Core.List.{Perm}
use mathlib.Core.List.Perm
use fetch.Common.{
  ℕ, zero, suc, ◌≤◌, ◌≡◌, refl, ap, ◌∙◌, Bool, Bool-cases, true, false, inl, inr, List, [], ◌∷◌,
  ◌++◌, length, take, drop, leb, leb→le, if◌then◌else◌, arith,
}
use fetch.Http.Http3Cache.Global.{ShardSummary, expired_summaries, insert_by_use, sort_by_use}

-- A property of each shard.
abbrev pub Every : (ShardSummary → Type 0) → List ShardSummary → Type 0
Every P [] = Unit
Every P (s ∷ summaries) = P s × Every P summaries

abbrev Sorted : List ShardSummary → Type 0
Sorted [] = Unit
Sorted (s ∷ summaries) = Every (λ t. s.last_used_at ≤ t.last_used_at) summaries × Sorted summaries

pub leb-false : (m n : ℕ) → leb m n ≡ false → n ≤ m
leb-false m n h = ground arith

pub Every-mono :
    {P Q : ShardSummary → Type 0} (summaries : List ShardSummary)
    → ((s : ShardSummary) → P s → Q s)
    → Every P summaries
    → Every Q summaries
Every-mono [] f h = tt
Every-mono (s ∷ summaries) f (h, more) = (f s h, Every-mono summaries f more)

pub Every-append :
    (P : ShardSummary → Type 0) (xs ys : List ShardSummary)
    → Every P xs
    → Every P ys
    → Every P (xs ++ ys)
Every-append P [] ys h k = k
Every-append P (x ∷ xs) ys (h, more) k = (h, Every-append P xs ys more k)

pub Every-drop :
    (P : ShardSummary → Type 0) (n : ℕ) (xs : List ShardSummary) → Every P xs → Every P (drop n xs)
Every-drop P zero xs h = h
Every-drop P (suc n) [] h = tt
Every-drop P (suc n) (x ∷ xs) (h, more) = Every-drop P n xs more

pub Every-take :
    (P : ShardSummary → Type 0) (n : ℕ) (xs : List ShardSummary) → Every P xs → Every P (take n xs)
Every-take P zero xs h = tt
Every-take P (suc n) [] h = tt
Every-take P (suc n) (x ∷ xs) (h, more) = (h, Every-take P n xs more)

Every-if :
    (P : ShardSummary → Type 0) (xs ys : List ShardSummary) (b : Bool)
    → Every P xs
    → Every P ys
    → Every P (if b then xs else ys)
Every-if P xs ys true h k = h
Every-if P xs ys false h k = k

pub Every-expired_summaries :
    (P : ShardSummary → Type 0) (wanted : Bool) (summaries : List ShardSummary)
    → Every P summaries
    → Every P (expired_summaries wanted summaries)
unfolding expired_summaries
Every-expired_summaries P wanted [] h = tt
Every-expired_summaries P true (s ∷ summaries) (h, more) =
    let rest = Every-expired_summaries P true summaries more in
    Every-if P _ _ s.expired (h, rest) rest
Every-expired_summaries P false (s ∷ summaries) (h, more) =
    let rest = Every-expired_summaries P false summaries more in
    Every-if P _ _ s.expired rest (h, rest)

Every-insert_by_use :
    (P : ShardSummary → Type 0) (a : ShardSummary) (summaries : List ShardSummary)
    → P a
    → Every P summaries
    → Every P (insert_by_use a summaries)
unfolding insert_by_use
Every-insert_by_use P a [] h k = (h, tt)
Every-insert_by_use P a (b ∷ summaries) h (k, more) =
    elim (Bool-cases (leb a.last_used_at b.last_used_at)) [
      | inl first ↦ rw first (h, (k, more))
      | inr later ↦ rw later (k, Every-insert_by_use P a summaries h more)
    ]

pub Every-sort_by_use :
    (P : ShardSummary → Type 0) (summaries : List ShardSummary)
    → Every P summaries
    → Every P (sort_by_use summaries)
unfolding sort_by_use
Every-sort_by_use P [] h = tt
Every-sort_by_use P (s ∷ summaries) (h, more) =
    Every-insert_by_use P s (sort_by_use summaries) h (Every-sort_by_use P summaries more)

insert_by_use-Sorted :
    (a : ShardSummary) (summaries : List ShardSummary)
    → Sorted summaries
    → Sorted (insert_by_use a summaries)
unfolding insert_by_use
insert_by_use-Sorted a [] h = (tt, tt)
insert_by_use-Sorted a (b ∷ summaries) (h, o) =
    elim (Bool-cases (leb a.last_used_at b.last_used_at)) [
      | inl first ↦
          let le = leb→le a.last_used_at b.last_used_at first in
          let behind : Every (λ t. a.last_used_at ≤ t.last_used_at) summaries =
            Every-mono summaries (λ t k. omega (arith, le, k)) h in
          rw first ((le, behind), (h, o))
      | inr later ↦ rw later (
        Every-insert_by_use (λ t. b.last_used_at ≤ t.last_used_at) a summaries
            (leb-false a.last_used_at b.last_used_at later) h,
        insert_by_use-Sorted a summaries o,
      )
    ]

pub sort_by_use-Sorted : (summaries : List ShardSummary) → Sorted (sort_by_use summaries)
unfolding sort_by_use
sort_by_use-Sorted [] = tt
sort_by_use-Sorted (s ∷ summaries) =
    insert_by_use-Sorted s (sort_by_use summaries) (sort_by_use-Sorted summaries)

insert_by_use-Perm :
    (a : ShardSummary) (summaries : List ShardSummary)
    → Perm (insert_by_use a summaries) (a ∷ summaries)
unfolding insert_by_use
insert_by_use-Perm a [] = Perm.refl (a ∷ [])
insert_by_use-Perm a (b ∷ summaries) = elim (Bool-cases (leb a.last_used_at b.last_used_at)) [
  | inl first ↦ rw first (Perm.refl (a ∷ (b ∷ summaries)))
  | inr later ↦
      rw later (Perm.trans (Perm.cons b (insert_by_use-Perm a summaries)) (Perm.swap a b summaries))
]

pub sort_by_use-Perm : (summaries : List ShardSummary) → Perm (sort_by_use summaries) summaries
unfolding sort_by_use
sort_by_use-Perm [] = Perm.refl []
sort_by_use-Perm (s ∷ summaries) =
    Perm.trans (insert_by_use-Perm s (sort_by_use summaries))
      (Perm.cons s (sort_by_use-Perm summaries))

length-insert_by_use :
    (a : ShardSummary) (summaries : List ShardSummary)
    → length (insert_by_use a summaries) ≡ suc (length summaries)
unfolding insert_by_use
length-insert_by_use a [] = refl
length-insert_by_use a (b ∷ summaries) = elim (Bool-cases (leb a.last_used_at b.last_used_at)) [
  | inl first ↦ rw first refl
  | inr later ↦ rw later (ap suc (length-insert_by_use a summaries))
]

pub length-sort_by_use :
    (summaries : List ShardSummary) → length (sort_by_use summaries) ≡ length summaries
unfolding sort_by_use
length-sort_by_use [] = refl
length-sort_by_use (s ∷ summaries) =
    length-insert_by_use s (sort_by_use summaries) ∙ ap suc (length-sort_by_use summaries)

-- The first ones of a sorted list were used no later than the others.
pub take-Sorted :
    (n : ℕ) (xs : List ShardSummary)
    → Sorted xs
    → Every (λ r. Every (λ k. r.last_used_at ≤ k.last_used_at) (drop n xs)) (take n xs)
take-Sorted zero xs o = tt
take-Sorted (suc n) [] o = tt
take-Sorted (suc n) (x ∷ xs) (h, o) =
    (Every-drop (λ k. x.last_used_at ≤ k.last_used_at) n xs h, take-Sorted n xs o)
