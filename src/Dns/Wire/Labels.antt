-- ===== src/Dns/Wire/Labels.antt =====
-- src/dns/wire.rs: a name against its labels.
use fetch.Common.{
  Bool, false, ◌&&◌, is_empty, ℕ, ◌≡◌, refl, ap, Bool-cases, true, inl, inr, List, [], ◌∷◌, Bytes,
  ◌==◌, ==→eq, sym, ◌∙◌, arith,
}
use fetch.Common.Utf8.{State, boundary, step, is_utf8}
use fetch.Common.Utf8.Ascii.{Continues, step-Continues, ends, ends-is_utf8, ends-cons, ends_ascii}
use fetch.Dns.Wire.{split_dots, join_dots, cons_first, trim_end_dots}

&&-right : (a b : Bool) → a && b ≡ true → b ≡ true
&&-right true b h = h
&&-right false b h = cc

abbrev Nonempty : List Bytes → Type 0
Nonempty [] = ⊥
Nonempty (label ∷ labels) = Unit

cons_first-Nonempty : (c : ℕ) (labels : List Bytes) → Nonempty (cons_first c labels)
cons_first-Nonempty c [] = tt
cons_first-Nonempty c (label ∷ labels) = tt

-- What `split` gives is never empty.
split_dots-Nonempty : (host : Bytes) → Nonempty (split_dots host)
unfolding split_dots
split_dots-Nonempty [] = tt
split_dots-Nonempty (c ∷ cs) = elim (Bool-cases (c == b'.')) [
  | inl dot ↦ rw dot tt
  | inr other ↦ rw other (cons_first-Nonempty c (split_dots cs))
]

join_dots-separated :
    (labels : List Bytes) → Nonempty labels → join_dots ([] ∷ labels) ≡ b'.' ∷ join_dots labels
join_dots-separated [] h = absurd h
join_dots-separated (label ∷ labels) h = refl

join_dots-cons_first :
    (c : ℕ) (labels : List Bytes) → join_dots (cons_first c labels) ≡ c ∷ join_dots labels
join_dots-cons_first c [] = refl
join_dots-cons_first c (label ∷ []) = refl
join_dots-cons_first c (label ∷ (next ∷ labels)) = refl

-- The labels make up the name.
pub join_dots-split_dots : (host : Bytes) → join_dots (split_dots host) ≡ host
unfolding split_dots
join_dots-split_dots [] = refl
join_dots-split_dots (c ∷ cs) = elim (Bool-cases (c == b'.')) [
  | inl dot ↦
      let d : c ≡ b'.' = ==→eq c b'.' dot in
      rw dot (
        join_dots-separated (split_dots cs) (split_dots-Nonempty cs)
        ∙ rw (join_dots-split_dots cs, d) refl)
  | inr other ↦
      rw other (join_dots-cons_first c (split_dots cs) ∙ ap (◌∷◌ c) (join_dots-split_dots cs))
]

-- Each label is UTF-8, where the first one goes on from a state.
abbrev pub AllUtf8 : List Bytes → Type 0
AllUtf8 [] = Unit
AllUtf8 (label ∷ labels) = (is_utf8 label ≡ true) × AllUtf8 labels

abbrev Valid : State → List Bytes → Type 0
Valid s [] = Unit
Valid s (label ∷ labels) = (ends s label ≡ true) × AllUtf8 labels

Valid-cons_first :
    (s : State) (c : ℕ) (labels : List Bytes)
    → Nonempty labels
    → Valid (step s c) labels
    → Valid s (cons_first c labels)
Valid-cons_first s c [] n h = absurd n
Valid-cons_first s c (label ∷ labels) n (h, all) = (ends-cons s c label ∙ h, all)

Valid-boundary : (labels : List Bytes) → Valid boundary labels → AllUtf8 labels
Valid-boundary [] h = tt
Valid-boundary (label ∷ labels) (h, all) = (sym (ends-is_utf8 label) ∙ h, all)

split_dots-Valid :
    (s : State) (host : Bytes) → Continues s → ends s host ≡ true → Valid s (split_dots host)
unfolding split_dots
split_dots-Valid s [] k h = (h, tt)
split_dots-Valid s (c ∷ cs) k h =
    let next : ends (step s c) cs ≡ true = sym (ends-cons s c cs) ∙ h in
    elim (Bool-cases (c == b'.')) [
      | inl dot ↦
          let d : c ≡ b'.' = ==→eq c b'.' dot in
          let (here, later) = ends_ascii s c cs (omega arith) k next in
          rw dot (
            here,
            Valid-boundary (split_dots cs)
                (split_dots-Valid boundary cs tt (ends-is_utf8 cs ∙ later)),
          )
      | inr other ↦ rw other (
          Valid-cons_first s c (split_dots cs) (split_dots-Nonempty cs)
            (split_dots-Valid (step s c) cs (step-Continues s c k) next))
    ]

-- The labels of a text are texts.
pub split_dots-AllUtf8 : (host : Bytes) → is_utf8 host ≡ true → AllUtf8 (split_dots host)
split_dots-AllUtf8 host h =
    Valid-boundary (split_dots host) (split_dots-Valid boundary host tt (ends-is_utf8 host ∙ h))

ends-trim_end_dots :
    (s : State) (host : Bytes)
    → Continues s
    → ends s host ≡ true
    → ends s (trim_end_dots host) ≡ true
unfolding trim_end_dots
ends-trim_end_dots s [] k h = h
ends-trim_end_dots s (c ∷ cs) k h =
    let next : ends (step s c) cs ≡ true = sym (ends-cons s c cs) ∙ h in
    elim (Bool-cases (is_empty (trim_end_dots cs) && (c == b'.'))) [
      | inl last ↦
          let d : c ≡ b'.' =
            ==→eq c b'.' (&&-right (is_empty (trim_end_dots cs)) (c == b'.') last) in
          rw last (ends_ascii s c cs (omega arith) k next).0
      | inr kept ↦ rw kept (
          ends-cons s c (trim_end_dots cs)
          ∙ ends-trim_end_dots (step s c) cs (step-Continues s c k) next)
    ]

-- A text without the dots at its end is a text.
pub trim_end_dots-is_utf8 :
    (host : Bytes) → is_utf8 host ≡ true → is_utf8 (trim_end_dots host) ≡ true
trim_end_dots-is_utf8 host h =
    sym (ends-is_utf8 _) ∙ ends-trim_end_dots boundary host tt (ends-is_utf8 host ∙ h)
