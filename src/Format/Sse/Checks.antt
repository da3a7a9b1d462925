-- ===== src/Format/Sse/Checks.antt =====
-- src/format/sse.rs: the checks of lengths.
use fetch.Common.{
  ℕ, ◌+◌, ◌<◌, ◌≡◌, min, Option, none, some, List, [], ◌∷◌, ◌++◌, ltb, ltb→le, else-eq-ok, ok,
  arith,
}
use fetch.Format.Sse.{PendingBufferKind, usize_max, utf8_length, len_utf8, ensure_len}
use fetch.Format.Sse.Lines.{FitsIn, utf8_length-append}

-- A limit below the largest length.
abbrev pub IsLimit : Option ℕ → Type 0
IsLimit none = Unit
IsLimit (some max) = max < usize_max

pub FitsIn-nil : (limit : Option ℕ) → FitsIn limit []
unfolding utf8_length
FitsIn-nil none = tt
FitsIn-nil (some max) = omega arith

pub FitsIn-char :
    (limit : Option ℕ) (kind : PendingBufferKind) (text : List ℕ) (c : ℕ) {checked : Unit {0}}
    → IsLimit limit
    → ensure_len limit kind (utf8_length text) (len_utf8 c) ≡ ok checked
    → FitsIn limit (text ++ c ∷ [])
unfolding ensure_len utf8_length
FitsIn-char none kind text c h e = tt
FitsIn-char (some max) kind text c h e =
    let (passed, rest) =
      else-eq-ok (ltb max (min (utf8_length text + len_utf8 c) usize_max)) _ _ e in
    let fits = ltb→le max (min (utf8_length text + len_utf8 c) usize_max) passed in
    omega (arith, utf8_length-append text (c ∷ []))

pub FitsIn-type :
    (limit : Option ℕ) (kind : PendingBufferKind) (value : List ℕ) {checked : Unit {0}}
    → IsLimit limit
    → ensure_len limit kind 0 (utf8_length value) ≡ ok checked
    → FitsIn limit value
unfolding ensure_len
FitsIn-type none kind value h e = tt
FitsIn-type (some max) kind value h e =
    let (passed, rest) = else-eq-ok (ltb max (min (0 + utf8_length value) usize_max)) _ _ e in
    let fits = ltb→le max (min (0 + utf8_length value) usize_max) passed in omega arith

pub FitsIn-data :
    (limit : Option ℕ) (kind : PendingBufferKind) (text value : List ℕ) {checked : Unit {0}}
    → IsLimit limit
    → ensure_len limit kind (utf8_length text) (min (utf8_length value + 1) usize_max) ≡ ok checked
    → FitsIn limit (text ++ (value ++ 0xa ∷ []))
unfolding ensure_len utf8_length len_utf8
FitsIn-data none kind text value h e = tt
FitsIn-data (some max) kind text value h e =
    let most = min (utf8_length value + 1) usize_max in
    let (passed, rest) = else-eq-ok (ltb max (min (utf8_length text + most) usize_max)) _ _ e in
    let fits = ltb→le max (min (utf8_length text + most) usize_max) passed in
    omega (arith, utf8_length-append text (value ++ 0xa ∷ []), utf8_length-append value (0xa ∷ []))
