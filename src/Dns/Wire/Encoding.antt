-- ===== src/Dns/Wire/Encoding.antt =====
-- src/dns/wire.rs: what `write_name` writes.
use fetch.Common.{
  ◌≤◌, ◌<◌, ◌≡◌, refl, ap, ◌∙◌, sym, Bool-cases, true, false, inl, inr, List, [], ◌∷◌, ◌++◌,
  append_assoc, append-nil, Bytes, length, is_empty, ltb, ltb→le, ok, >>=-eq-ok, arith,
}
use fetch.Common.Utf8.{is_utf8}
use fetch.Dns.Wire.{joined, write_labels, write_name, split_dots, join_dots, trim_end_dots}
use fetch.Dns.Wire.Labels.{AllUtf8, join_dots-split_dots, split_dots-AllUtf8, trim_end_dots-is_utf8}

-- Labels as they stand in a message.
abbrev pub encoded : List Bytes → Bytes
encoded [] = []
encoded (label ∷ labels) = length label ∷ (label ++ encoded labels)

abbrev pub Sized : List Bytes → Type 0
Sized [] = Unit
Sized (label ∷ labels) = (0 < length label) × (length label ≤ 63) × Sized labels

is_empty-length : (label : Bytes) → is_empty label ≡ false → 0 < length label
is_empty-length [] h = cc
is_empty-length (c ∷ cs) h = omega arith

pub write_labels-eq-ok :
    (host raw : Bytes) (labels : List Bytes) {written : Bytes}
    → write_labels host raw labels ≡ ok written
    → (written ≡ raw ++ encoded labels) × Sized labels
unfolding write_labels
write_labels-eq-ok host raw [] {written} e =
    let r : written ≡ raw = cc in (r ∙ sym (append-nil raw), tt)
write_labels-eq-ok host raw (label ∷ labels) {written} e = elim (Bool-cases (is_empty label)) [
  | inl empty ↦ let q = rw empty at e in cc
  | inr full ↦ elim (Bool-cases (ltb 63 (length label))) [
    | inl long ↦ let q = rw (full, long) at e in cc
    | inr short ↦
        let q = rw (full, short) at e in
        let (r, sized) = write_labels-eq-ok host (raw ++ (length label ∷ label)) labels q in
        (
          r ∙ append_assoc raw (length label ∷ label) (encoded labels),
          (is_empty-length label full, ltb→le 63 (length label) short, sized),
        )
  ]
]

-- What a name reads as: without the dots at its end, and then with one.
abbrev pub absolute : Bytes → Bytes
absolute host = trim_end_dots host ++ b'.' ∷ []

joined-split_dots :
    (host : Bytes) → is_empty host ≡ false → joined (split_dots host) ≡ host ++ b'.' ∷ []
joined-split_dots host h = go (split_dots host) (join_dots-split_dots host)
  where
    go : (labels : List Bytes) → join_dots labels ≡ host → joined labels ≡ host ++ b'.' ∷ []
    go [] e = let r : is_empty host ≡ true = rw (sym e) in cc
    go (label ∷ labels) e = rw e

-- What `write_name` writes.
pub record Encodes (raw host written : Bytes) : Type 0 where
  pub labels : List Bytes
  pub sized : Sized labels
  pub valid : AllUtf8 labels
  pub name : joined labels ≡ absolute host
  pub appended : written ≡ raw ++ (encoded labels ++ 0 ∷ [])

is_empty-eq : (bytes : Bytes) → is_empty bytes ≡ true → bytes ≡ []
is_empty-eq [] h = refl
is_empty-eq (c ∷ cs) h = cc

pub write_name-Encodes :
    (raw host : Bytes) {written : Bytes}
    → is_utf8 host ≡ true
    → write_name raw host ≡ ok written
    → Encodes raw host written
unfolding write_name
write_name-Encodes raw host {written} u e =
    let labels : List Bytes = split_dots (trim_end_dots host) in
    elim (Bool-cases (is_empty (trim_end_dots host))) [
      | inl empty ↦
          let q : ok (raw ++ 0 ∷ []) ≡ ok written = rw empty at e in
          record {
            labels = [];
            sized = tt;
            valid = tt;
            name = rw (is_empty-eq (trim_end_dots host) empty) refl;
            appended = cc;
          }
      | inr full ↦
          let (raw', w, f) =
            >>=-eq-ok (write_labels (trim_end_dots host) raw labels) _ (rw full at e) in
          let (r, sized) = write_labels-eq-ok (trim_end_dots host) raw labels w in
          let g : written ≡ raw' ++ 0 ∷ [] = cc in
          record {
            labels = labels;
            sized = sized;
            valid = split_dots-AllUtf8 (trim_end_dots host) (trim_end_dots-is_utf8 host u);
            name = joined-split_dots (trim_end_dots host) full;
            appended =
                g ∙ ap (λ (t : Bytes). t ++ 0 ∷ []) r ∙ append_assoc raw (encoded labels) (0 ∷ []);
          }
    ]

-- A name is written behind what there was.
pub write_name-prefix :
    (raw host : Bytes) {written : Bytes}
    → is_utf8 host ≡ true
    → write_name raw host ≡ ok written
    → (body : Bytes) × (written ≡ raw ++ body)
write_name-prefix raw host u e =
    let w = write_name-Encodes raw host u e in (encoded w.labels ++ 0 ∷ [], w.appended)
