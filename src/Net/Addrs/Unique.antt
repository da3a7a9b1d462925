-- ===== src/Net/Addrs/Unique.antt =====
-- src/net.rs: addresses are kept once, and none is lost.
use mathlib.Core.Bool.{or_assoc, or-false}
use fetch.Common.{
  Bool, Bool-cases, true, false, ◌&&◌, ◌||◌, List, [], ◌∷◌, ◌++◌, ◌==◌, ==→eq, eq→==, ◌≡◌, refl,
  sym, ap, ◌∙◌, inl, inr,
}
use fetch.Net.Addrs.{SocketAddr, v4, v6, same, contains, push_unique, append_unique_socket_addrs}

both : (a b : Bool) → a && b ≡ true → (a ≡ true) × (b ≡ true)
both true b h = (refl, h)
both false b h = cc

pub same→eq : (a b : SocketAddr) → same a b ≡ true → a ≡ b
unfolding same
same→eq (v4 a p) (v4 b q) h =
    let (e, f) = both (a == b) (p == q) h in let x = ==→eq a b e in let y = ==→eq p q f in cc
same→eq (v6 a p f s) (v6 b q g t) h =
    let (e, d) = both ((a == b) && (p == q)) ((f == g) && (s == t)) h in
    let (e1, e2) = both (a == b) (p == q) e in
    let (d1, d2) = both (f == g) (s == t) d in
    let x = ==→eq a b e1 in
    let y = ==→eq p q e2 in let z = ==→eq f g d1 in let w = ==→eq s t d2 in cc
same→eq (v4 a p) (v6 b q g t) h = cc
same→eq (v6 a p f s) (v4 b q) h = cc

pub same_self : (a : SocketAddr) → same a a ≡ true
unfolding same
same_self (v4 a p) = rw (eq→== a a refl, eq→== p p refl)
same_self (v6 a p f s) = rw (eq→== a a refl, eq→== p p refl, eq→== f f refl, eq→== s s refl)

pub contains-append :
    (xs ys : List SocketAddr) (b : SocketAddr)
    → contains (xs ++ ys) b ≡ (contains xs b || contains ys b)
unfolding contains
contains-append [] ys b = refl
contains-append (x ∷ xs) ys b =
    rw (contains-append xs ys b) (sym (or_assoc (same x b) (contains xs b) (contains ys b)))

pub contains-pushed :
    (t : List SocketAddr) (a b : SocketAddr) → contains (t ++ a ∷ []) b ≡ (contains t b || same a b)
unfolding contains
contains-pushed t a b =
    contains-append t (a ∷ []) b ∙ ap (λ (r : Bool). contains t b || r) (or-false (same a b))

-- What is there already adds nothing.
pub contains_known :
    (t : List SocketAddr) (a b : SocketAddr)
    → contains t a ≡ true
    → contains t b ≡ (contains t b || same a b)
contains_known t a b h = elim (Bool-cases (same a b)) [
  | inl e ↦ let k : contains t b ≡ true = ap (contains t) (sym (same→eq a b e)) ∙ h in rw k refl
  | inr e ↦ rw e (sym (or-false (contains t b)))
]

pub contains-push_unique :
    (t : List SocketAddr) (a b : SocketAddr)
    → contains (push_unique t a) b ≡ (contains t b || same a b)
unfolding push_unique
contains-push_unique t a b = elim (Bool-cases (contains t a)) [
  | inl h ↦ rw h (contains_known t a b h)
  | inr h ↦ rw h (contains-pushed t a b)
]

-- No address stands twice.
abbrev pub Distinct : List SocketAddr → Type 0
Distinct [] = Unit
Distinct (a ∷ addrs) = (contains addrs a ≡ false) × Distinct addrs

neither : (a b : Bool) → a ≡ false → b ≡ false → (a || b) ≡ false
neither a b h k = rw (h, k)

parts : (a b : Bool) → (a || b) ≡ false → (a ≡ false) × (b ≡ false)
parts true b h = cc
parts false b h = (refl, h)

same_sym : (a b : SocketAddr) → same a b ≡ false → same b a ≡ false
same_sym a b h = elim (Bool-cases (same b a)) [
  | inl e ↦
      let q : a ≡ b = sym (same→eq b a e) in let r : same a b ≡ true = rw q (same_self b) in cc
  | inr e ↦ e
]

pub Distinct-pushed :
    (t : List SocketAddr) (a : SocketAddr)
    → Distinct t
    → contains t a ≡ false
    → Distinct (t ++ a ∷ [])
unfolding contains
Distinct-pushed [] a d h = (refl, tt)
Distinct-pushed (x ∷ t) a (k, d) h =
    let (e, f) = parts (same x a) (contains t a) h in
    (
      contains-pushed t a x ∙ neither (contains t x) (same a x) k (same_sym x a e),
      Distinct-pushed t a d f,
    )

pub push_unique-Distinct :
    (t : List SocketAddr) (a : SocketAddr) → Distinct t → Distinct (push_unique t a)
unfolding push_unique
push_unique-Distinct t a d = elim (Bool-cases (contains t a)) [
  | inl h ↦ rw h d
  | inr h ↦ rw h (Distinct-pushed t a d h)
]

-- Addresses are appended to a list without repetition: it stays one, and it then has the addresses
-- that it had and those that were to be appended, and no other.
pub append_unique_socket_addrs-Distinct :
    (target addrs : List SocketAddr)
    → Distinct target
    → Distinct (append_unique_socket_addrs target addrs)
      × ((addr : SocketAddr)
          → contains (append_unique_socket_addrs target addrs) addr
            ≡ (contains target addr || contains addrs addr))
unfolding append_unique_socket_addrs contains
append_unique_socket_addrs-Distinct target [] d = (d, λ addr. sym (or-false (contains target addr)))
append_unique_socket_addrs-Distinct target (a ∷ addrs) d =
    let (e, f) =
      append_unique_socket_addrs-Distinct (push_unique target a) addrs
        (push_unique-Distinct target a d) in
    (
      e,
      λ addr.
          f addr
          ∙ ap (λ (r : Bool). r || contains addrs addr) (contains-push_unique target a addr)
          ∙ or_assoc (contains target addr) (same a addr) (contains addrs addr),
    )
