-- ===== src/Dns/Response/Relevant.antt =====
-- src/dns/wire.rs: the answers that are kept against the relation of CNAME chains.
use fetch.Common.{
  ◌∙◌, ℕ, zero, suc, ◌≡◌, refl, sym, ◌↔◌, inl, inr, Bool, Bool-cases, true, false, List, [], ◌∷◌,
  ◌++◌, Bytes, length, Result, ok, err, ok_inj, >>=-eq-ok,
}
use fetch.Dns.Wire.{WireError}
use fetch.Dns.Response.{
  ResourceRecord, is_reachable, names_equal, cname_step, cname_round, cname_loop, retain_reachable,
  relevant_records,
}
use fetch.Dns.Response.Reach.{
  In, Reaches, asked_for, alias_of, Kept, cname_step-cases, is_followed-parts, parts-is_followed,
  is_reachable-append, is_reachable-names_equal,
}
use fetch.Dns.Response.Loop.{Extends, cname_round-Progress}

-- Each name of the list is reached by a chain.
abbrev OnlyReached : Bytes → ℕ → List ResourceRecord → Bytes → List Bytes → Type 0
OnlyReached raw class records asked reachable =
    (name : Bytes) → is_reachable reachable name ≡ true → Reaches raw class records asked name

cname_round-OnlyReached :
    (raw : Bytes) (class : ℕ) (all : List ResourceRecord) (asked : Bytes)
    (records : List ResourceRecord) (reachable : List Bytes) (changed : Bool)
    {after : List Bytes × Bool}
    → ((r : ResourceRecord) → In r records → In r all)
    → OnlyReached raw class all asked reachable
    → cname_round raw class records reachable changed ≡ ok after
    → OnlyReached raw class all asked after.0
unfolding cname_round
cname_round-OnlyReached raw class all asked [] reachable changed sub only h = rw (← ok_inj h) only
cname_round-OnlyReached raw class all asked (r ∷ records) reachable changed sub only h =
    let (middle, first, rest) = >>=-eq-ok (cname_step raw class r reachable changed) _ h in
    elim (cname_step-cases raw class r reachable changed first) [
      | inl (same, kept) ↦
          let k = rw same at rest in
          cname_round-OnlyReached raw class all asked records reachable changed
            (λ s i. sub s (inr i)) only k
      | inr (target, added, (followed, read, absent)) ↦
          let k = rw added at rest in
          let (c, t, n) = is_followed-parts class reachable r followed in
          cname_round-OnlyReached raw class all asked records (reachable ++ target ∷ []) true
            (λ s i. sub s (inr i))
            (λ name there. elim (is_reachable-append reachable target name there) [
              | inl old ↦ only name old
              | inr new ↦ alias_of r (sub r (inl refl)) c t (only r.name n) read new
            ])
            k
    ]

-- A round that changes nothing: the names stay, and they have the target of each alias of theirs.
abbrev Closed : Bytes → ℕ → List ResourceRecord → List Bytes → Type 0
Closed raw class records reachable =
    (r : ResourceRecord) → In r records → Kept raw class r reachable

cname_round-changed :
    (raw : Bytes) (class : ℕ) (records : List ResourceRecord) (reachable : List Bytes)
    {after : List Bytes × Bool}
    → cname_round raw class records reachable true ≡ ok after
    → after.1 ≡ true
unfolding cname_round
cname_round-changed raw class [] reachable h = rw (← ok_inj h) refl
cname_round-changed raw class (r ∷ records) reachable h =
    let (middle, first, rest) = >>=-eq-ok (cname_step raw class r reachable true) _ h in
    elim (cname_step-cases raw class r reachable true first) [
      | inl (same, kept) ↦
          let k = rw same at rest in cname_round-changed raw class records reachable k
      | inr (target, added, parts) ↦
          let k = rw added at rest in
          cname_round-changed raw class records (reachable ++ target ∷ []) k
    ]

cname_round-Closed :
    (raw : Bytes) (class : ℕ) (records : List ResourceRecord) (reachable found : List Bytes)
    → cname_round raw class records reachable false ≡ ok (found, false)
    → (reachable ≡ found) × Closed raw class records reachable
unfolding cname_round
cname_round-Closed raw class [] reachable found h = (let e = ok_inj h in cc, λ r i. absurd i)
cname_round-Closed raw class (r ∷ records) reachable found h =
    let (middle, first, rest) = >>=-eq-ok (cname_step raw class r reachable false) _ h in
    elim (cname_step-cases raw class r reachable false first) [
      | inl (same, kept) ↦
          let k = rw same at rest in
          let (e, closed) = cname_round-Closed raw class records reachable found k in
          (e, λ s i. elim i [ inl this ↦ rw (← this) kept | inr later ↦ closed s later ])
      | inr (target, added, parts) ↦
          let k = rw added at rest in
          let q = cname_round-changed raw class records (reachable ++ target ∷ []) k in cc
    ]

-- What the loop ends with.
abbrev Fixed : Bytes → ℕ → List ResourceRecord → Bytes → List Bytes → List Bytes → Type 0
Fixed raw class records asked start found =
    Extends start found × OnlyReached raw class records asked found × Closed raw class records found

cname_loop-Fixed :
    (fuel : ℕ) (raw : Bytes) (class : ℕ) (records : List ResourceRecord) (asked : Bytes)
    (reachable : List Bytes) {found : List Bytes}
    → OnlyReached raw class records asked reachable
    → cname_loop fuel raw class records reachable ≡ ok found
    → Fixed raw class records asked reachable found
unfolding cname_loop
cname_loop-Fixed zero raw class records asked reachable only h = cc
cname_loop-Fixed (suc fuel) raw class records asked reachable {found} only h =
    go (λ next o k. cname_loop-Fixed fuel raw class records asked next o k)
      (cname_round raw class records reachable false) refl h
  where
    go :
        ((next : List Bytes)
          → OnlyReached raw class records asked next
          → cname_loop fuel raw class records next ≡ ok found
          → Fixed raw class records asked next found)
        → (round : Result WireError (List Bytes × Bool))
        → cname_round raw class records reachable false ≡ round
        → (elim round [
          | err e ↦ err e
          | ok (next, true) ↦ cname_loop fuel raw class records next
          | ok (next, false) ↦ ok next
        ])
          ≡ ok found
        → Fixed raw class records asked reachable found
    go later (err e) r k = cc
    go later (ok (next, true)) r k =
        let only_next =
          cname_round-OnlyReached raw class records asked records reachable false (λ s i. i) only
            r in
        let (extends, o, closed) = later next only_next k in
        let (first, gain) = cname_round-Progress raw class records reachable false r in
        (λ name there. extends name (first name there), o, closed)
    go later (ok (next, false)) r k =
        let (same, closed) = cname_round-Closed raw class records reachable next r in
        let e : reachable ≡ found = let q = ok_inj k in cc in
        rw (← e) ((λ name there. there), only, closed)

-- A list that has the name asked for and the targets of its aliases has all that chains reach.
Reaches-is_reachable :
    (raw : Bytes) (class : ℕ) (records : List ResourceRecord) (asked : Bytes) (found : List Bytes)
    {name : Bytes}
    → ((other : Bytes) → names_equal asked other ≡ true → is_reachable found other ≡ true)
    → Closed raw class records found
    → Reaches raw class records asked name
    → is_reachable found name ≡ true
Reaches-is_reachable raw class records asked found start closed (asked_for {name = name} h) =
    start name h
Reaches-is_reachable raw class records asked found start closed
      (alias_of {name = name} {target = target} r i c t chain read h) =
    let before = Reaches-is_reachable raw class records asked found start closed chain in
    let (other, again, there) = closed r i (parts-is_followed class found r c t before) in
    let e : other ≡ target = ok_inj (sym again ∙ read) in
    is_reachable-names_equal found target name (rw (← e) there) h

is_reachable-one :
    (asked name : Bytes) → is_reachable (asked ∷ []) name ≡ true → names_equal asked name ≡ true
unfolding is_reachable
is_reachable-one asked name h = elim (Bool-cases (names_equal asked name)) [
  | inl e ↦ e
  | inr e ↦ let q = rw e at h in cc
]

one-is_reachable :
    (asked name : Bytes) → names_equal asked name ≡ true → is_reachable (asked ∷ []) name ≡ true
unfolding is_reachable
one-is_reachable asked name h = rw h refl

retain_reachable-In :
    (reachable : List Bytes) (records : List ResourceRecord) (r : ResourceRecord)
    → In r (retain_reachable reachable records)
      ↔ (In r records × (is_reachable reachable r.name ≡ true))
unfolding retain_reachable
retain_reachable-In reachable [] r = (λ i. absurd i, λ p. absurd p.0)
retain_reachable-In reachable (s ∷ records) r =
    let (to, from) = retain_reachable-In reachable records r in
    elim (Bool-cases (is_reachable reachable s.name)) [
      | inl kept ↦ rw kept (
        (λ i. elim i [
          | inl e ↦ (inl e, rw (← e) kept)
          | inr later ↦ (inr (to later).0, (to later).1)
        ]),
        λ p. elim p.0 [ inl e ↦ inl e | inr later ↦ inr (from (later, p.1)) ],
      )
      | inr dropped ↦ rw dropped (
        (λ i. (inr (to i).0, (to i).1)),
        λ p. elim p.0 [ inl e ↦ let q = rw e at dropped in cc | inr later ↦ from (later, p.1) ],
      )
    ]

-- If the answers of a response are searched without an error, then those that are kept are the answers
-- whose owner a chain of aliases of the class reaches from the name that was asked for.
pub relevant_records-Reaches :
    (raw asked : Bytes) (class : ℕ) (records : List ResourceRecord) {kept : List ResourceRecord}
    → relevant_records raw asked class records ≡ ok kept
    → (r : ResourceRecord) → In r kept ↔ (In r records × Reaches raw class records asked r.name)
unfolding relevant_records
relevant_records-Reaches raw asked class records h r =
    let (found, searched, rest) =
      >>=-eq-ok (cname_loop (suc (length records)) raw class records (asked ∷ [])) _ h in
    let (extends, only, closed) =
      cname_loop-Fixed (suc (length records)) raw class records asked (asked ∷ [])
        (λ name there. asked_for (is_reachable-one asked name there)) searched in
    let complete = λ (chain : Reaches raw class records asked r.name).
      Reaches-is_reachable raw class records asked found
        (λ other same. extends other (one-is_reachable asked other same)) closed chain in
    let (to, from) = retain_reachable-In found records r in
    rw (← ok_inj rest) ((λ i. ((to i).0, only r.name (to i).1)), λ p. from (p.0, complete p.1))
