-- ===== src/Format/Sse/Lines.antt =====
-- src/format/sse.rs: the lines of a stream, however these end.
use fetch.Common.{
  ℕ, ◌+◌, ◌≤◌, ◌≡◌, refl, sym, ap, inl, inr, min, Bool, Bool-cases, true, false, Option, none, some,
  List, [], ◌∷◌, ◌++◌, append-nil, append_assoc, le→ltb, ◌==◌, if◌then◌else◌, ok, arith,
}
use fetch.Format.Sse.{
  PendingBufferKind, utf8_length, len_utf8, ensure_len, cons_first, split_newlines,
}

-- The text with a line feed for each line break, which is a carriage return, a line feed or both; after
-- a carriage return if the flag is set.
unfoldable pub unix : Bool → List ℕ → List ℕ
unix after_cr [] = []
unix after_cr (c ∷ cs) =
    let same = unix false cs in
    let turned = unix true cs in
    if c == 0xa
    then if after_cr then same else 0xa ∷ same
    else if c == 0xd
    then 0xa ∷ turned
    else c ∷ same

unfoldable pub last_cr : Bool → List ℕ → Bool
last_cr after_cr [] = after_cr
last_cr after_cr (c ∷ cs) = last_cr (c == 0xd) cs

-- The lines of a text; the last one has no break.
abbrev pub lines_of : Bool → List ℕ → List (List ℕ)
lines_of after_cr text = split_newlines (unix after_cr text)

-- What is pending stands before the first line.
abbrev pub prepend : List ℕ → List (List ℕ) → List (List ℕ)
prepend pending [] = pending ∷ []
prepend pending (first ∷ others) = (pending ++ first) ∷ others

-- Each line is within the limit.
abbrev pub FitsIn : Option ℕ → List ℕ → Type 0
FitsIn none text = Unit
FitsIn (some max) text = utf8_length text ≤ max

abbrev pub Fit : Option ℕ → List (List ℕ) → Type 0
Fit limit [] = Unit
Fit limit (text ∷ others) = FitsIn limit text × Fit limit others

-- The same pending text, line by line.
pub prepend-cons_first :
    (pending : List ℕ) (c : ℕ) (lines : List (List ℕ))
    → prepend pending (cons_first c lines) ≡ prepend (pending ++ c ∷ []) lines
prepend-cons_first pending c [] = refl
prepend-cons_first pending c (first ∷ others) =
    ap (λ (t : List ℕ). t ∷ others) (sym (append_assoc pending (c ∷ []) first))

pub utf8_length-append : (xs ys : List ℕ) → utf8_length (xs ++ ys) ≡ utf8_length xs + utf8_length ys
unfolding utf8_length
utf8_length-append [] ys = omega arith
utf8_length-append (x ∷ xs) ys = omega (arith, utf8_length-append xs ys)

pub ensure_len-FitsIn :
    (limit : Option ℕ) (kind : PendingBufferKind) (text : List ℕ) (c : ℕ) (more : List ℕ)
    → FitsIn limit ((text ++ c ∷ []) ++ more)
    → ensure_len limit kind (utf8_length text) (len_utf8 c) ≡ ok tt
unfolding ensure_len utf8_length
ensure_len-FitsIn none kind text c more h = refl
ensure_len-FitsIn (some max) kind text c more h =
    let a = utf8_length-append (text ++ c ∷ []) more in
    let b = utf8_length-append text (c ∷ []) in
    rw (le→ltb max (min (utf8_length text + len_utf8 c) 18446744073709551615) (omega arith)) refl

pub split_newlines-cons :
    (text : List ℕ)
    → (first : List ℕ) × (others : List (List ℕ)) × (split_newlines text ≡ first ∷ others)
unfolding split_newlines
split_newlines-cons [] = ([], [], refl)
split_newlines-cons (c ∷ cs) = elim (Bool-cases (c == 0xa)) [
  | inl e ↦ ([], split_newlines cs, rw e refl)
  | inr e ↦ let (first, others, f) = split_newlines-cons cs in (c ∷ first, others, rw (e, f) refl)
]

pub prepend_nothing :
    (lines : List (List ℕ))
    → (first : List ℕ) × (others : List (List ℕ)) × (lines ≡ first ∷ others)
    → prepend [] lines ≡ lines
prepend_nothing [] (first, others, e) = cc
prepend_nothing (line ∷ lines) h = refl

-- What each character makes of the lines.
pub lines_of-feed :
    (c : ℕ) (text : List ℕ)
    → (c == 0xa) ≡ true
    → (lines_of true (c ∷ text) ≡ lines_of false text)
      × (lines_of false (c ∷ text) ≡ [] ∷ lines_of false text)
unfolding unix split_newlines
lines_of-feed c text h = (rw h refl, rw h refl)

pub lines_of-turn :
    (after_cr : Bool) (c : ℕ) (text : List ℕ)
    → (c == 0xa) ≡ false
    → (c == 0xd) ≡ true
    → lines_of after_cr (c ∷ text) ≡ [] ∷ lines_of true text
unfolding unix split_newlines
lines_of-turn after_cr c text h k = rw (h, k) refl

pub lines_of-char :
    (after_cr : Bool) (c : ℕ) (text : List ℕ)
    → (c == 0xa) ≡ false
    → (c == 0xd) ≡ false
    → lines_of after_cr (c ∷ text) ≡ cons_first c (lines_of false text)
unfolding unix split_newlines
lines_of-char after_cr c text h k = rw (h, k, split_newlines, h) refl

pub ensure_len-Fit :
    (limit : Option ℕ) (kind : PendingBufferKind) (text : List ℕ) (c : ℕ) (lines : List (List ℕ))
    → Fit limit (prepend (text ++ c ∷ []) lines)
    → ensure_len limit kind (utf8_length text) (len_utf8 c) ≡ ok tt
ensure_len-Fit limit kind text c [] (h, more) =
    ensure_len-FitsIn limit kind text c [] (rw (append-nil (text ++ c ∷ [])) h)
ensure_len-Fit limit kind text c (first ∷ others) (h, more) =
    ensure_len-FitsIn limit kind text c first h
