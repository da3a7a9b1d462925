-- ===== src/Http/Http3Cache/AltSvc/Splitting.antt =====
-- src/http/http3_cache.rs: how `split_quoted`, `unquote` and `trim` go through texts of a known form.
use fetch.Common.{
  ℕ, suc, ◌+◌, ◌-◌, ◌≡◌, refl, ap, ◌∙◌, Bool, true, false, not, ◌&&◌, some, List, [], ◌∷◌, ◌++◌,
  append_assoc, append-nil, Bytes, is_empty, length, length-append, take-length-append, leb, le→leb,
  ◌==◌, if◌then◌else◌, arith,
}
use fetch.Common.Text.{&&-both, &&-false}
use fetch.Common.Chars.{is_whitespace, trim_end}
use fetch.Common.Decimal.{is_ascii_digit, AllDigits}
use fetch.Http.Http3Cache.AltSvc.{
  Splitter, splitting, split_char, split_loop, starts_quoted, ends_quoted, unquote,
}

-- No character of the text is one of two.
abbrev pub avoids : ℕ → ℕ → Bytes → Bool
avoids a b [] = true
avoids a b (c ∷ cs) = (not (c == a) && not (c == b)) && avoids a b cs

pub avoids-append :
    (a b : ℕ) (xs ys : Bytes)
    → avoids a b xs ≡ true
    → avoids a b ys ≡ true
    → avoids a b (xs ++ ys) ≡ true
avoids-append a b [] ys h k = k
avoids-append a b (x ∷ xs) ys h k =
    let (p, q) = &&-both (not (x == a) && not (x == b)) (avoids a b xs) h in
    rw (p, avoids-append a b xs ys q k) refl

digit-other : (c a : ℕ) → is_ascii_digit c ≡ true → is_ascii_digit a ≡ false → not (c == a) ≡ true
unfolding is_ascii_digit
digit-other c a h k = ground arith

pub avoids-AllDigits :
    (a b : ℕ) (cs : Bytes)
    → is_ascii_digit a ≡ false
    → is_ascii_digit b ≡ false
    → AllDigits cs
    → avoids a b cs ≡ true
avoids-AllDigits a b [] p q h = refl
avoids-AllDigits a b (c ∷ cs) p q (h, hs) =
    rw (digit-other c a h p, digit-other c b h q, avoids-AllDigits a b cs p q hs) refl

not-true : (b : Bool) → not b ≡ true → b ≡ false
not-true true h = cc
not-true false h = refl

both-other : (c a b : ℕ) → not (c == a) && not (c == b) ≡ true → (c == a ≡ false) × (c == b ≡ false)
both-other c a b h =
    let (p, q) = &&-both (not (c == a)) (not (c == b)) h in
    (not-true (c == a) p, not-true (c == b) q)

-- Between quotation marks.
abbrev pub inside : List Bytes → Bytes → Splitter
inside out current = record { out = out; current = current; quoted = true; escaped = false }

snoc : (current : Bytes) (c : ℕ) (text : Bytes) → (current ++ c ∷ []) ++ text ≡ current ++ c ∷ text
snoc current c text = append_assoc current (c ∷ []) text

split_char-plain :
    (separator : ℕ) (out : List Bytes) (current : Bytes) (c : ℕ)
    → c == b'"' ≡ false
    → c == separator ≡ false
    → split_char separator (splitting out current) c ≡ splitting out (current ++ c ∷ [])
unfolding split_char
split_char-plain separator out current c m n = rw (m, n) refl

split_char-inside :
    (separator : ℕ) (out : List Bytes) (current : Bytes) (c : ℕ)
    → c == b'"' ≡ false
    → c == b'\\' ≡ false
    → split_char separator (inside out current) c ≡ inside out (current ++ c ∷ [])
unfolding split_char
split_char-inside separator out current c m n = rw (n, m) refl

-- A text with no separator and no quotation mark is kept, and so is one with no quotation mark and no
-- backslash between quotation marks.
pub split_loop-plain :
    (separator : ℕ) (out : List Bytes) (text : Bytes) (current rest : Bytes)
    → avoids b'"' separator text ≡ true
    → split_loop separator (splitting out current) (text ++ rest)
      ≡ split_loop separator (splitting out (current ++ text)) rest
unfolding split_loop
split_loop-plain separator out [] current rest h = rw (append-nil current) refl
split_loop-plain separator out (c ∷ text) current rest h =
    let (p, q) = &&-both (not (c == b'"') && not (c == separator)) (avoids b'"' separator text) h in
    let (m, n) = both-other c b'"' separator p in
    let e = split_loop-plain separator out text (current ++ c ∷ []) rest q in
    ap (λ s. split_loop separator s (text ++ rest)) (split_char-plain separator out current c m n)
    ∙ e
    ∙ ap (λ t. split_loop separator (splitting out t) rest) (snoc current c text)

pub split_loop-inside :
    (separator : ℕ) (out : List Bytes) (text : Bytes) (current rest : Bytes)
    → avoids b'"' b'\\' text ≡ true
    → split_loop separator (inside out current) (text ++ rest)
      ≡ split_loop separator (inside out (current ++ text)) rest
unfolding split_loop
split_loop-inside separator out [] current rest h = rw (append-nil current) refl
split_loop-inside separator out (c ∷ text) current rest h =
    let (p, q) = &&-both (not (c == b'"') && not (c == b'\\')) (avoids b'"' b'\\' text) h in
    let (m, n) = both-other c b'"' b'\\' p in
    let e = split_loop-inside separator out text (current ++ c ∷ []) rest q in
    ap (λ s. split_loop separator s (text ++ rest)) (split_char-inside separator out current c m n)
    ∙ e
    ∙ ap (λ t. split_loop separator (inside out t) rest) (snoc current c text)

quote_opens :
    (separator : ℕ) (out : List Bytes) (current rest : Bytes)
    → split_loop separator (splitting out current) (b'"' ∷ rest)
      ≡ split_loop separator (inside out (current ++ b'"' ∷ [])) rest
unfolding split_loop split_char
quote_opens separator out current rest = refl

quote_closes :
    (separator : ℕ) (out : List Bytes) (current rest : Bytes)
    → split_loop separator (inside out current) (b'"' ∷ rest)
      ≡ split_loop separator (splitting out (current ++ b'"' ∷ [])) rest
unfolding split_loop split_char
quote_closes separator out current rest = refl

-- A text in quotation marks between other texts.
abbrev pub around : Bytes → Bytes → Bytes → Bytes
around before text after = before ++ b'"' ∷ (text ++ b'"' ∷ after)

-- What stands behind a text that is around another.
pub around-append :
    (before text after rest : Bytes)
    → around before text after ++ rest ≡ around before text (after ++ rest)
around-append before text after rest =
    append_assoc before (b'"' ∷ (text ++ b'"' ∷ after)) rest
    ∙ ap (λ t. before ++ b'"' ∷ t) (append_assoc text (b'"' ∷ after) rest)

pub split_loop-around :
    (separator : ℕ) (out : List Bytes) (before text after rest : Bytes)
    → avoids b'"' separator before ≡ true
    → avoids b'"' b'\\' text ≡ true
    → avoids b'"' separator after ≡ true
    → split_loop separator (splitting out []) (around before text after ++ rest)
      ≡ split_loop separator (splitting out (around before text after)) rest
split_loop-around separator out before text after rest h k l =
    let opened : Bytes = before ++ b'"' ∷ [] in
    let closed : Bytes = (opened ++ text) ++ b'"' ∷ [] in
    let e : around before text after ++ rest ≡ before ++ b'"' ∷ (text ++ b'"' ∷ (after ++ rest)) =
      around-append before text after rest in
    let shape : closed ++ after ≡ around before text after =
      snoc (opened ++ text) b'"' after
      ∙ append_assoc opened text (b'"' ∷ after)
      ∙ snoc before b'"' (text ++ b'"' ∷ after) in
    rw e (
      split_loop-plain separator out before [] (b'"' ∷ (text ++ b'"' ∷ (after ++ rest))) h
      ∙ quote_opens separator out before (text ++ b'"' ∷ (after ++ rest))
      ∙ split_loop-inside separator out text opened (b'"' ∷ (after ++ rest)) k
      ∙ quote_closes separator out (opened ++ text) (after ++ rest)
      ∙ split_loop-plain separator out after closed rest l
      ∙ ap (λ t. split_loop separator (splitting out t) rest) shape)

-- The end of a text stays where it is no whitespace, whatever stands before.
pub trim_end-onto :
    (xs : Bytes) (y : ℕ) (ys : Bytes)
    → trim_end (y ∷ ys) ≡ y ∷ ys
    → trim_end (xs ++ y ∷ ys) ≡ xs ++ y ∷ ys
unfolding trim_end
trim_end-onto [] y ys h = h
trim_end-onto (x ∷ xs) y ys h = rw (trim_end-onto xs y ys h) (kept xs)
  where
    kept :
        (xs : Bytes)
        → (if is_empty (xs ++ y ∷ ys) && is_whitespace x then [] else x ∷ (xs ++ y ∷ ys))
          ≡ x ∷ (xs ++ y ∷ ys)
    kept [] = refl
    kept (z ∷ xs) = refl

pub digit-is_whitespace : (c : ℕ) → is_ascii_digit c ≡ true → is_whitespace c ≡ false
unfolding is_ascii_digit is_whitespace
digit-is_whitespace c h = ground arith

pub trim_end-AllDigits : (cs : Bytes) → AllDigits cs → trim_end cs ≡ cs
unfolding trim_end
trim_end-AllDigits [] h = refl
trim_end-AllDigits (c ∷ cs) (h, hs) =
    rw (trim_end-AllDigits cs hs, digit-is_whitespace c h, &&-false (is_empty cs)) refl

ends_quoted-append : (xs : Bytes) → ends_quoted (xs ++ b'"' ∷ []) ≡ true
unfolding ends_quoted
ends_quoted-append [] = refl
ends_quoted-append (x ∷ []) = refl
ends_quoted-append (x ∷ (y ∷ xs)) = ends_quoted-append (y ∷ xs)

-- Quotation marks are taken off.
pub unquote-quoted : (text : Bytes) → unquote (b'"' ∷ (text ++ b'"' ∷ [])) ≡ some text
unfolding unquote
unquote-quoted text =
    let size : length (text ++ b'"' ∷ []) ≡ length text + 1 = length-append text (b'"' ∷ []) in
    let less : suc (length (text ++ b'"' ∷ [])) - 2 ≡ length text = omega (arith, size) in
    rw
      (
        le→leb 2 (suc (length (text ++ b'"' ∷ []))) (omega (arith, size)),
        ends_quoted-append (b'"' ∷ text),
        less,
        take-length-append text (b'"' ∷ []),
      )
      refl

digit-quote : (c : ℕ) → is_ascii_digit c ≡ true → (c == b'"') ≡ false
unfolding is_ascii_digit
digit-quote c h = ground arith

ends_quoted-AllDigits : (cs : Bytes) → AllDigits cs → ends_quoted cs ≡ false
unfolding ends_quoted
ends_quoted-AllDigits [] h = refl
ends_quoted-AllDigits (c ∷ []) (h, hs) = digit-quote c h
ends_quoted-AllDigits (c ∷ (d ∷ cs)) (h, hs) = ends_quoted-AllDigits (d ∷ cs) hs

unquote_other :
    (text : Bytes)
    → starts_quoted text ≡ false
    → ends_quoted text ≡ false
    → unquote text ≡ some text
unfolding unquote
unquote_other text h k = rw (h, k, &&-false (leb 2 (length text))) refl

-- Digits have none.
pub unquote-AllDigits : (cs : Bytes) → AllDigits cs → unquote cs ≡ some cs
unquote-AllDigits cs h = unquote_other cs (starts cs h) (ends_quoted-AllDigits cs h)
  where
    starts : (cs : Bytes) → AllDigits cs → starts_quoted cs ≡ false
    starts [] h = refl
    starts (c ∷ cs) (h, hs) = digit-quote c h
