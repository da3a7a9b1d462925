-- ===== src/Net/Addrs/Interleave.antt =====
-- src/net.rs: interleaving the families keeps every address, the preferred family first.
use mathlib.Core.Bool.{or_assoc, or-false}
use fetch.Common.{
  Bool, Bool-cases, true, false, ◌||◌, List, [], ◌∷◌, ◌++◌, get_elem?, some, ◌≡◌, refl, sym, ap,
  ◌∙◌, inl, inr, ok,
}
use fetch.Net.Addrs.{
  SocketAddr, same, contains, push_unique, is_ipv4, split_families, same_family, interleave_unique,
  interleave_socket_addrs,
}
use fetch.Net.Addrs.Unique.{Distinct, contains-push_unique, push_unique-Distinct}

swap : (a b c : Bool) → (a || (b || c)) ≡ (b || (a || c))
swap true true c = refl
swap true false c = refl
swap false b c = refl

contains-split_families :
    (ipv4 : Bool) (addrs : List SocketAddr) (b : SocketAddr)
    → let (preferred, fallback) = split_families ipv4 addrs in
      (contains preferred b || contains fallback b) ≡ contains addrs b
unfolding split_families contains
contains-split_families ipv4 [] b = refl
contains-split_families ipv4 (a ∷ addrs) b =
    let (p, f) = split_families ipv4 addrs in
    elim (Bool-cases (same_family (is_ipv4 a) ipv4)) [
      | inl h ↦ rw h (
          or_assoc (same a b) (contains p b) (contains f b)
          ∙ ap (λ (r : Bool). same a b || r) (contains-split_families ipv4 addrs b))
      | inr h ↦ rw h (
          swap (contains p b) (same a b) (contains f b)
          ∙ ap (λ (r : Bool). same a b || r) (contains-split_families ipv4 addrs b))
    ]

-- What the loop keeps.
abbrev Kept : List SocketAddr → List SocketAddr → List SocketAddr → List SocketAddr → Type 0
Kept ordered preferred fallback out =
    Distinct out
    × ((b : SocketAddr)
        → contains out b ≡ (contains ordered b || (contains preferred b || contains fallback b)))

shuffle : (o s p t f : Bool) → ((o || s) || t) || (p || f) ≡ (o || ((s || p) || (t || f)))
shuffle true s p t f = refl
shuffle false true p t f = refl
shuffle false false p t f = swap t p f

interleave_unique-Kept :
    (ordered preferred fallback : List SocketAddr)
    → Distinct ordered
    → Kept ordered preferred fallback (interleave_unique ordered preferred fallback)
unfolding interleave_unique contains
interleave_unique-Kept ordered [] [] d = (d, λ b. sym (or-false (contains ordered b)))
interleave_unique-Kept ordered [] (y ∷ fallback) d =
    let (e, k) =
      interleave_unique-Kept (push_unique ordered y) [] fallback
        (push_unique-Distinct ordered y d) in
    (
      e,
      λ b.
          k b
          ∙ ap (λ (r : Bool). r || contains fallback b) (contains-push_unique ordered y b)
          ∙ or_assoc (contains ordered b) (same y b) (contains fallback b),
    )
interleave_unique-Kept ordered (x ∷ preferred) [] d =
    let (e, k) =
      interleave_unique-Kept (push_unique ordered x) preferred []
        (push_unique-Distinct ordered x d) in
    (
      e,
      λ b.
          k b
          ∙ ap (λ (r : Bool). r || (contains preferred b || false))
              (contains-push_unique ordered x b)
          ∙ or_assoc (contains ordered b) (same x b) (contains preferred b || false)
          ∙ ap (λ (r : Bool). contains ordered b || r)
              (sym (or_assoc (same x b) (contains preferred b) false)),
    )
interleave_unique-Kept ordered (x ∷ preferred) (y ∷ fallback) d =
    let (e, k) =
      interleave_unique-Kept (push_unique (push_unique ordered x) y) preferred fallback
        (push_unique-Distinct (push_unique ordered x) y (push_unique-Distinct ordered x d)) in
    (
      e,
      λ b.
          k b
          ∙ ap (λ (r : Bool). r || (contains preferred b || contains fallback b))
              (contains-push_unique (push_unique ordered x) y b
                ∙ ap (λ (r : Bool). r || same y b) (contains-push_unique ordered x b))
          ∙ shuffle (contains ordered b) (same x b) (contains preferred b) (same y b)
              (contains fallback b),
    )

-- The first address of a list.
abbrev pub Starts : SocketAddr → List SocketAddr → Type 0
Starts first addrs = get_elem? addrs 0 ≡ some first

Starts-pushed :
    (first a : SocketAddr) (t : List SocketAddr) → Starts first t → Starts first (t ++ a ∷ [])
Starts-pushed first a [] h = cc
Starts-pushed first a (x ∷ t) h = h

push_unique-Starts :
    (first a : SocketAddr) (t : List SocketAddr) → Starts first t → Starts first (push_unique t a)
unfolding push_unique
push_unique-Starts first a t h = elim (Bool-cases (contains t a)) [
  | inl known ↦ rw known h
  | inr fresh ↦ rw fresh (Starts-pushed first a t h)
]

interleave_unique-Starts :
    (first : SocketAddr) (ordered preferred fallback : List SocketAddr)
    → Starts first ordered
    → Starts first (interleave_unique ordered preferred fallback)
unfolding interleave_unique
interleave_unique-Starts first ordered [] [] h = h
interleave_unique-Starts first ordered [] (y ∷ fallback) h =
    interleave_unique-Starts first (push_unique ordered y) [] fallback
      (push_unique-Starts first y ordered h)
interleave_unique-Starts first ordered (x ∷ preferred) [] h =
    interleave_unique-Starts first (push_unique ordered x) preferred []
      (push_unique-Starts first x ordered h)
interleave_unique-Starts first ordered (x ∷ preferred) (y ∷ fallback) h =
    interleave_unique-Starts first (push_unique (push_unique ordered x) y) preferred fallback
      (push_unique-Starts first y (push_unique ordered x) (push_unique-Starts first x ordered h))

interleave_unique-first :
    (first : SocketAddr) (preferred fallback : List SocketAddr)
    → Starts first (interleave_unique [] (first ∷ preferred) fallback)
unfolding interleave_unique push_unique contains
interleave_unique-first first preferred [] =
    interleave_unique-Starts first (first ∷ []) preferred [] refl
interleave_unique-first first preferred (y ∷ fallback) =
    interleave_unique-Starts first (push_unique (first ∷ []) y) preferred fallback
      (push_unique-Starts first y (first ∷ []) refl)

same_family_self : (b : Bool) → same_family b b ≡ true
unfolding same_family
same_family_self true = refl
same_family_self false = refl

-- An order of connection attempts over the addresses of a host.
pub record Orders (first : SocketAddr) (addrs out : List SocketAddr) : Type 0 where
  pub distinct : Distinct out
  pub same_addrs : (b : SocketAddr) → contains out b ≡ contains addrs b
  pub starts : Starts first out

interleave_unique-Orders :
    (first : SocketAddr) (addrs preferred fallback : List SocketAddr)
    → ((b : SocketAddr)
        → (contains (first ∷ preferred) b || contains fallback b) ≡ contains addrs b)
    → Orders first addrs (interleave_unique [] (first ∷ preferred) fallback)
unfolding contains
interleave_unique-Orders first addrs preferred fallback h =
    let (distinct, kept) = interleave_unique-Kept [] (first ∷ preferred) fallback tt in
    record {
      distinct = distinct;
      same_addrs = λ b. kept b ∙ h b;
      starts = interleave_unique-first first preferred fallback;
    }

-- Interleaving the addresses of a host gives each of them once and no other, and starts with the first.
pub interleave_socket_addrs-Orders :
    (first : SocketAddr) (addrs : List SocketAddr)
    → (out : List SocketAddr) × (interleave_socket_addrs (first ∷ addrs) ≡ ok out)
      × Orders first (first ∷ addrs) out
unfolding interleave_socket_addrs split_families
interleave_socket_addrs-Orders first addrs =
    let (preferred, fallback) = split_families (is_ipv4 first) addrs in
    (
      interleave_unique [] (first ∷ preferred) fallback,
      rw (same_family_self (is_ipv4 first)),
      interleave_unique-Orders first (first ∷ addrs) preferred fallback (λ b.
          rw (same_family_self (is_ipv4 first)) at
            (contains-split_families (is_ipv4 first) (first ∷ addrs) b)),
    )
