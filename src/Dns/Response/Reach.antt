-- ===== src/Dns/Response/Reach.antt =====
-- src/dns/wire.rs: the names that a chain of CNAME records reaches, and what a record of the loop adds.
use fetch.Common.{
  ℕ, ◌≡◌, refl, sym, ◌⊎◌, inl, inr, Bool, Bool-cases, true, false, ◌||◌, List, [], ◌∷◌, ◌++◌, Bytes,
  ◌==◌, ==→eq, eq→==, ok, ok_inj, >>=-eq-ok,
}
use fetch.Common.Text.{
  bytes_eq→eq, bytes_eq_self, &&-both, eq_ignore_ascii_case, to_ascii_lowercase,
}
use fetch.Dns.Wire.{trim_end_dots}
use fetch.Dns.Response.{
  ResourceRecord, names_equal, is_reachable, is_followed, cname_target, cname_step, type_cname,
}

-- A record among others.
abbrev pub In : ResourceRecord → List ResourceRecord → Type 0
In r [] = ⊥
In r (s ∷ records) = (s ≡ r) ⊎ In r records

-- The names that an answer may have: the one that was asked for, and the targets of the aliases of
-- such names, up to the case of letters and dots at the end.
pub data Reaches (raw : Bytes) (class : ℕ) (records : List ResourceRecord) (asked : Bytes)
    : Bytes → Type 0 where
  asked_for : {name : Bytes} → names_equal asked name ≡ true → Reaches raw class records asked name
  alias_of :
      {name target : Bytes} (r : ResourceRecord)
      → In r records
      → r.class ≡ class
      → r.typ ≡ type_cname
      → Reaches raw class records asked r.name
      → cname_target raw r ≡ ok target
      → names_equal target name ≡ true
      → Reaches raw class records asked name

||-either : (a b : Bool) → a || b ≡ true → (a ≡ true) ⊎ (b ≡ true)
||-either true b h = inl refl
||-either false b h = inr h

||-true : (a b : Bool) → (a ≡ true) ⊎ (b ≡ true) → a || b ≡ true
||-true true b h = refl
||-true false b (inl h) = cc
||-true false b (inr h) = h

pub names_equal_self : (a : Bytes) → names_equal a a ≡ true
unfolding names_equal eq_ignore_ascii_case
names_equal_self a = bytes_eq_self (to_ascii_lowercase (trim_end_dots a))

pub names_equal_trans :
    (a b c : Bytes) → names_equal a b ≡ true → names_equal b c ≡ true → names_equal a c ≡ true
unfolding names_equal eq_ignore_ascii_case
names_equal_trans a b c h k =
    let e =
      bytes_eq→eq (to_ascii_lowercase (trim_end_dots a)) (to_ascii_lowercase (trim_end_dots b)) h in
    rw e k

pub is_reachable-names_equal :
    (reachable : List Bytes) (a b : Bytes)
    → is_reachable reachable a ≡ true
    → names_equal a b ≡ true
    → is_reachable reachable b ≡ true
unfolding is_reachable
is_reachable-names_equal [] a b h k = cc
is_reachable-names_equal (name ∷ names) a b h k =
    elim (||-either (names_equal name a) (is_reachable names a) h) [
      | inl e ↦ ||-true (names_equal name b) _ (inl (names_equal_trans name a b e k))
      | inr e ↦ ||-true (names_equal name b) _ (inr (is_reachable-names_equal names a b e k))
    ]

pub is_reachable-append :
    (reachable : List Bytes) (target name : Bytes)
    → is_reachable (reachable ++ target ∷ []) name ≡ true
    → (is_reachable reachable name ≡ true) ⊎ (names_equal target name ≡ true)
unfolding is_reachable
is_reachable-append [] target name h = elim (||-either (names_equal target name) false h) [
  | inl e ↦ inr e
  | inr e ↦ cc
]
is_reachable-append (first ∷ names) target name h =
    elim (||-either (names_equal first name) (is_reachable (names ++ target ∷ []) name) h) [
      | inl e ↦ inl (||-true (names_equal first name) _ (inl e))
      | inr e ↦ elim (is_reachable-append names target name e) [
        | inl f ↦ inl (||-true (names_equal first name) _ (inr f))
        | inr f ↦ inr f
      ]
    ]

pub append-is_reachable :
    (reachable : List Bytes) (target name : Bytes)
    → (is_reachable reachable name ≡ true) ⊎ (names_equal target name ≡ true)
    → is_reachable (reachable ++ target ∷ []) name ≡ true
unfolding is_reachable
append-is_reachable [] target name (inl h) = cc
append-is_reachable [] target name (inr h) = ||-true (names_equal target name) false (inl h)
append-is_reachable (first ∷ names) target name (inr h) =
    ||-true (names_equal first name) _ (inr (append-is_reachable names target name (inr h)))
append-is_reachable (first ∷ names) target name (inl h) =
    elim (||-either (names_equal first name) (is_reachable names name) h) [
      | inl e ↦ ||-true (names_equal first name) _ (inl e)
      | inr e ↦
          ||-true (names_equal first name) _ (inr (append-is_reachable names target name (inl e)))
    ]

-- What holds of a record that the loop looks at.
pub is_followed-parts :
    (class : ℕ) (reachable : List Bytes) (r : ResourceRecord)
    → is_followed class reachable r ≡ true
    → (r.class ≡ class) × (r.typ ≡ type_cname) × (is_reachable reachable r.name ≡ true)
unfolding is_followed
is_followed-parts class reachable r h =
    let (a, rest) = &&-both (r.class == class) _ h in
    let (b, c) = &&-both (r.typ == type_cname) _ rest in (==→eq _ _ a, ==→eq _ _ b, c)

pub parts-is_followed :
    (class : ℕ) (reachable : List Bytes) (r : ResourceRecord)
    → r.class ≡ class
    → r.typ ≡ type_cname
    → is_reachable reachable r.name ≡ true
    → is_followed class reachable r ≡ true
unfolding is_followed
parts-is_followed class reachable r a b c = rw (eq→== _ _ a, eq→== _ _ b) c

-- A step leaves the names as they are, and then the target of an alias that it follows was there, or
-- it adds the target of one, which was not.
abbrev pub Kept : Bytes → ℕ → ResourceRecord → List Bytes → Type 0
Kept raw class r reachable =
    is_followed class reachable r ≡ true
    → (target : Bytes) × (cname_target raw r ≡ ok target) × (is_reachable reachable target ≡ true)

abbrev pub Added : Bytes → ℕ → ResourceRecord → List Bytes → Bytes → Type 0
Added raw class r reachable target =
    (is_followed class reachable r ≡ true)
    × (cname_target raw r ≡ ok target)
    × (is_reachable reachable target ≡ false)

pub cname_step-cases :
    (raw : Bytes) (class : ℕ) (r : ResourceRecord) (reachable : List Bytes) (changed : Bool)
    {after : List Bytes × Bool}
    → cname_step raw class r reachable changed ≡ ok after
    → ((after ≡ (reachable, changed)) × Kept raw class r reachable)
      ⊎ ((target : Bytes) × (after ≡ (reachable ++ target ∷ [], true))
          × Added raw class r reachable target)
unfolding cname_step
cname_step-cases raw class r reachable changed {after} h =
    elim (Bool-cases (is_followed class reachable r)) [
      | inr skipped ↦ let e = rw skipped at h in inl (sym (ok_inj e), λ followed. cc)
      | inl followed ↦
          let k = rw followed at h in
          let (target, read, rest) = >>=-eq-ok (cname_target raw r) _ k in
          elim (Bool-cases (is_reachable reachable target)) [
            | inl there ↦
                let e = rw there at rest in inl (sym (ok_inj e), λ _. (target, read, there))
            | inr missing ↦
                let e = rw missing at rest in
                inr (target, sym (ok_inj e), (followed, read, missing))
          ]
    ]
