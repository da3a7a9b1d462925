-- ===== src/Http/Http3Cache/AltSvc/Written.antt =====
-- src/http/http3_cache.rs: alternatives that are written as servers write them.
use fetch.Common.{
  ℕ, ◌^◌, ◌<◌, ◌≡◌, refl, sym, ap, ◌∙◌, Bool, true, false, Option, some, List, [], ◌∷◌, ◌++◌,
  append_assoc, append-nil, Bytes,
}
use fetch.Common.Text.{codes, eq_ignore_ascii_case, to_ascii_lowercase, ascii_lower, bytes_eq}
use fetch.Common.Chars.{is_whitespace, trim, trim_start, trim_end, trim-append}
use fetch.Common.Decimal.{is_ascii_digit, to_string, to_string-AllDigits, to_string-cons, AllDigits}
use fetch.Common.Parse.{parse_below-to_string}
use fetch.Http.Http3Cache.AltSvc.{
  Url, splitting, split_end, split_char, split_loop, split_quoted, split_once, ma_part, stated_age,
  ma_parts, alt_svc_candidate, default_alt_svc_ma_secs, parse_alt_authority, parse_alt_svc_parts,
  parse_alt_svc_item,
}
use fetch.Http.Http3Cache.AltSvc.Splitting.{
  avoids, avoids-AllDigits, around, around-append, split_loop-around, split_loop-plain,
  trim_end-onto, trim_end-AllDigits, digit-is_whitespace, unquote-quoted, unquote-AllDigits,
}

-- `h3=":PORT"; ma=AGE`
abbrev authority : ℕ → Bytes
authority port = b':' ∷ to_string port

abbrev age : ℕ → Bytes
age ma = codes "; ma=" ++ to_string ma

abbrev pub write_alternative : ℕ × ℕ → Bytes
write_alternative (port, ma) = around (codes "h3=") (authority port) (age ma)

abbrev pub write_header : ℕ × ℕ → List (ℕ × ℕ) → Bytes
write_header a [] = write_alternative a
write_header a (b ∷ more) = write_alternative a ++ b',' ∷ (b' ' ∷ write_header b more)

abbrev pub written : ℕ × ℕ → List (ℕ × ℕ) → List Bytes
written a [] = write_alternative a ∷ []
written a (b ∷ more) = write_alternative a ∷ written b more

trim-space : (cs : Bytes) → trim (b' ' ∷ cs) ≡ trim cs
unfolding trim trim_start is_whitespace
trim-space cs = refl

-- What starts with a character and ends with a number.
trim-number :
    (c : ℕ) (cs : Bytes) (n : ℕ)
    → is_whitespace c ≡ false
    → trim (c ∷ (cs ++ to_string n)) ≡ c ∷ (cs ++ to_string n)
unfolding trim trim_start
trim-number c cs n h =
    let (d, ds, e) = to_string-cons n in
    let digits : AllDigits (to_string n) = to_string-AllDigits n in
    let some_digits : AllDigits (d ∷ ds) = rw e at digits in
    rw (e, h) (trim_end-onto (c ∷ cs) d ds (trim_end-AllDigits (d ∷ ds) some_digits))

trim-to_string : (n : ℕ) → trim (to_string n) ≡ to_string n
unfolding trim trim_start
trim-to_string n =
    let (d, ds, e) = to_string-cons n in
    let digits : AllDigits (to_string n) = to_string-AllDigits n in
    let some_digits : AllDigits (d ∷ ds) = rw e at digits in
    rw (e, digit-is_whitespace d some_digits.0) (trim_end-AllDigits (d ∷ ds) some_digits)

h-is_whitespace : is_whitespace b'h' ≡ false
unfolding is_whitespace
h-is_whitespace = refl

m-is_whitespace : is_whitespace b'm' ≡ false
unfolding is_whitespace
m-is_whitespace = refl

quote-is_whitespace : is_whitespace b'"' ≡ false
unfolding is_whitespace
quote-is_whitespace = refl

trim-write_alternative : (a : ℕ × ℕ) → trim (write_alternative a) ≡ write_alternative a
trim-write_alternative (port, ma) =
    let before : Bytes = around (codes "h3=") (authority port) (codes "; ma=") in
    let e : before ++ to_string ma ≡ write_alternative (port, ma) =
      around-append (codes "h3=") (authority port) (codes "; ma=") (to_string ma) in
    let t : trim (before ++ to_string ma) ≡ before ++ to_string ma =
      trim-number b'h' (around (codes "3=") (authority port) (codes "; ma=")) ma h-is_whitespace in
    ap trim (sym e) ∙ t ∙ e

number-avoids :
    (a b n : ℕ)
    → is_ascii_digit a ≡ false
    → is_ascii_digit b ≡ false
    → avoids a b (to_string n) ≡ true
number-avoids a b n h k = avoids-AllDigits a b (to_string n) h k (to_string-AllDigits n)

authority-avoids : (port : ℕ) → avoids b'"' b'\\' (authority port) ≡ true
unfolding is_ascii_digit
authority-avoids port = number-avoids b'"' b'\\' port refl refl

age-avoids : (ma : ℕ) → avoids b'"' b',' (age ma) ≡ true
unfolding is_ascii_digit
age-avoids ma = number-avoids b'"' b',' ma refl refl

age-avoids_semicolon : (ma : ℕ) → avoids b'"' b';' (codes " ma=" ++ to_string ma) ≡ true
unfolding is_ascii_digit
age-avoids_semicolon ma = number-avoids b'"' b';' ma refl refl

split_comma :
    (out : List Bytes) (current rest : Bytes)
    → split_loop b',' (splitting out current) (b',' ∷ rest)
      ≡ split_loop b',' (splitting (out ++ trim current ∷ []) []) rest
unfolding split_loop split_char
split_comma out current rest = refl

split_semicolon :
    (out : List Bytes) (current rest : Bytes)
    → split_loop b';' (splitting out current) (b';' ∷ rest)
      ≡ split_loop b';' (splitting (out ++ trim current ∷ []) []) rest
unfolding split_loop split_char
split_semicolon out current rest = refl

split_nothing :
    (separator : ℕ) (out : List Bytes) (current : Bytes)
    → split_end (split_loop separator (splitting out current) []) ≡ out ++ trim current ∷ []
unfolding split_loop
split_nothing separator out current = refl

-- Behind a space or not.
abbrev pub space : Bool → Bytes
space true = b' ' ∷ []
space false = []

space-avoids : (b : Bool) → avoids b'"' b',' (space b ++ codes "h3=") ≡ true
space-avoids true = refl
space-avoids false = refl

trim-spaced : (b : Bool) (a : ℕ × ℕ) → trim (space b ++ write_alternative a) ≡ write_alternative a
trim-spaced true a = trim-space (write_alternative a) ∙ trim-write_alternative a
trim-spaced false a = trim-write_alternative a

-- One alternative is read up to what is behind.
split_alternative :
    (b : Bool) (out : List Bytes) (a : ℕ × ℕ) (rest : Bytes)
    → split_loop b',' (splitting out []) ((space b ++ write_alternative a) ++ rest)
      ≡ split_loop b',' (splitting out (space b ++ write_alternative a)) rest
split_alternative true out (port, ma) rest =
    split_loop-around b',' out (codes " h3=") (authority port) (age ma) rest refl
      (authority-avoids port) (age-avoids ma)
split_alternative false out (port, ma) rest =
    split_loop-around b',' out (codes "h3=") (authority port) (age ma) rest refl
      (authority-avoids port) (age-avoids ma)

pub split_header :
    (b : Bool) (out : List Bytes) (a : ℕ × ℕ) (more : List (ℕ × ℕ))
    → split_end (split_loop b',' (splitting out []) (space b ++ write_header a more))
      ≡ out ++ written a more
split_header b out a [] =
    let all : Bytes = space b ++ write_alternative a in
    ap (λ t. split_end (split_loop b',' (splitting out []) t)) (sym (append-nil all))
    ∙ ap split_end (split_alternative b out a [])
    ∙ split_nothing b',' out all
    ∙ ap (λ t. out ++ t ∷ []) (trim-spaced b a)
split_header b out a (c ∷ more) =
    let all : Bytes = space b ++ write_alternative a in
    let rest : Bytes = b' ' ∷ write_header c more in
    ap (λ t. split_end (split_loop b',' (splitting out []) t))
      (sym (append_assoc (space b) (write_alternative a) (b',' ∷ rest)))
    ∙ ap split_end (split_alternative b out a (b',' ∷ rest))
    ∙ ap split_end (split_comma out all rest)
    ∙ ap (λ t. split_end (split_loop b',' (splitting (out ++ t ∷ []) []) rest)) (trim-spaced b a)
    ∙ split_header true (out ++ write_alternative a ∷ []) c more
    ∙ append_assoc out (write_alternative a ∷ []) (written c more)

-- The two parts of an alternative.
split_quoted-write_alternative :
    (port ma : ℕ)
    → split_quoted (write_alternative (port, ma)) b';'
      ≡ around (codes "h3=") (authority port) [] ∷ (codes "ma=" ++ to_string ma) ∷ []
unfolding split_quoted
split_quoted-write_alternative port ma =
    let first : Bytes = around (codes "h3=") (authority port) [] in
    let second : Bytes = codes " ma=" ++ to_string ma in
    let e : first ++ b';' ∷ second ≡ write_alternative (port, ma) =
      around-append (codes "h3=") (authority port) [] (b';' ∷ second) in
    ap (λ t. split_end (split_loop b';' (splitting [] []) t)) (sym e)
    ∙ ap split_end (
        split_loop-around b';' [] (codes "h3=") (authority port) [] (b';' ∷ second) refl
          (authority-avoids port) refl)
    ∙ ap split_end (split_semicolon [] first second)
    ∙ ap (λ t. split_end (split_loop b';' (splitting (trim first ∷ []) []) t))
        (sym (append-nil second))
    ∙ ap split_end (split_loop-plain b';' (trim first ∷ []) second [] [] (age-avoids_semicolon ma))
    ∙ split_nothing b';' (trim first ∷ []) second
    ∙ ap (λ t. t ∷ (trim second ∷ []))
        (trim-append b'h' (codes "3=" ++ b'"' ∷ authority port) b'"' h-is_whitespace
          quote-is_whitespace)
    ∙ ap (λ t. first ∷ (t ∷ []))
        (trim-space (codes "ma=" ++ to_string ma)
          ∙ trim-number b'm' (codes "a=") ma m-is_whitespace)

split_once-ma : (text : Bytes) → split_once b'=' (codes "ma=" ++ text) ≡ some (codes "ma", text)
unfolding split_once
split_once-ma text = refl

split_once-h3 : (text : Bytes) → split_once b'=' (codes "h3=" ++ text) ≡ some (codes "h3", text)
unfolding split_once
split_once-h3 text = refl

is-ma : eq_ignore_ascii_case (trim (codes "ma")) (codes "ma") ≡ true
unfolding eq_ignore_ascii_case to_ascii_lowercase ascii_lower bytes_eq trim trim_start trim_end
    is_whitespace
is-ma = refl

is-h3 : eq_ignore_ascii_case (trim (codes "h3")) (codes "h3") ≡ true
unfolding eq_ignore_ascii_case to_ascii_lowercase ascii_lower bytes_eq trim trim_start trim_end
    is_whitespace
is-h3 = refl

ma_part-age : (default ma : ℕ) → ma < 2 ^ 64 → ma_part default (codes "ma=" ++ to_string ma) ≡ ma
unfolding ma_part stated_age split_once
ma_part-age default ma h =
    rw
      (
        is-ma,
        trim-to_string ma,
        unquote-AllDigits (to_string ma) (to_string-AllDigits ma),
        parse_below-to_string (2 ^ 64) ma h,
      )
      refl

module _ (parse_url : Bytes → Option Url) where
  parse_alt_authority-port :
      (port : ℕ) (origin_host : Bytes)
      → port < 2 ^ 16
      → parse_alt_authority parse_url (authority port) origin_host ≡ some (origin_host, port)
  unfolding parse_alt_authority
  parse_alt_authority-port port origin_host h = rw (parse_below-to_string (2 ^ 16) port h) refl

  pub parse_alt_svc_item-write_alternative :
      (port ma : ℕ) (origin_host : Bytes) (now : ℕ)
      → port < 2 ^ 16
      → ma < 2 ^ 64
      → parse_alt_svc_item parse_url (write_alternative (port, ma)) origin_host now
        ≡ some (alt_svc_candidate origin_host port ma now)
  unfolding parse_alt_svc_item parse_alt_svc_parts ma_parts
  parse_alt_svc_item-write_alternative port ma origin_host now h k =
      rw
        (
          split_quoted-write_alternative port ma,
          trim-append b'h' (codes "3=" ++ b'"' ∷ authority port) b'"' h-is_whitespace
              quote-is_whitespace,
          split_once-h3 (b'"' ∷ (authority port ++ b'"' ∷ [])),
          is-h3,
          trim-append b'"' (authority port) b'"' quote-is_whitespace quote-is_whitespace,
          unquote-quoted (authority port),
          parse_alt_authority-port port origin_host h,
          ma_part-age default_alt_svc_ma_secs ma k,
        )
        refl
