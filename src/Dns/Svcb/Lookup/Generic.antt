-- ===== src/Dns/Svcb/Lookup/Generic.antt =====
-- src/dns/svcb.rs: data in the generic notation.
use fetch.Common.{
  ℕ, ◌^◌, ◌<◌, ◌≡◌, refl, ap, ◌∙◌, Bool, true, false, not, ◌&&◌, none, some, List, [], ◌∷◌, ◌++◌,
  arith, append-nil, Bytes, length, is_empty, eq→==,
}
use fetch.Common.Bits.{holds_below, holds_below-test}
use fetch.Common.Text.{codes, bytes_eq, &&-both}
use fetch.Common.Chars.{is_whitespace}
use fetch.Common.Decimal.{is_ascii_digit, to_string, to_string-AllDigits, to_string-cons, AllDigits}
use fetch.Common.Parse.{parse_below-to_string}
use fetch.Dns.Wire.{cons_first}
use fetch.Dns.Svcb.Format.{hex_encode}
use fetch.Dns.Svcb.Hex.{AllBytes, hex_encode-hex_decode, high_digit, low_digit}
use fetch.Dns.Svcb.Lookup.{
  pieces, nonempty, split_whitespace, concat, generic_fields, parse_generic_rdata,
}

-- A text of other characters.
abbrev Solid : List ℕ → Type 0
Solid [] = Unit
Solid (c ∷ cs) = (is_whitespace c ≡ false) × Solid cs

digit_solid : (c : ℕ) → is_ascii_digit c ≡ true → is_whitespace c ≡ false
unfolding is_ascii_digit is_whitespace
digit_solid c h = ground arith

AllDigits-Solid : (cs : List ℕ) → AllDigits cs → Solid cs
AllDigits-Solid [] h = tt
AllDigits-Solid (c ∷ cs) (h, hs) = (digit_solid c h, AllDigits-Solid cs hs)

solid_table :
    holds_below 256
      (λ byte. not (is_whitespace (high_digit byte)) && not (is_whitespace (low_digit byte)))
    ≡ true
unfolding holds_below is_whitespace
solid_table = refl

not-true : (b : Bool) → not b ≡ true → b ≡ false
not-true true h = cc
not-true false h = refl

hex_encode-Solid : (raw : Bytes) → AllBytes raw → Solid (hex_encode raw)
unfolding hex_encode
hex_encode-Solid [] h = tt
hex_encode-Solid (byte ∷ raw) (h, hs) =
    let (high, low) = &&-both _ _ (
      holds_below-test 256 byte
        (λ byte. not (is_whitespace (high_digit byte)) && not (is_whitespace (low_digit byte)))
        solid_table h) in
    (not-true _ high, (not-true _ low, hex_encode-Solid raw hs))

pieces-Solid : (cs : List ℕ) → Solid cs → pieces cs ≡ cs ∷ []
unfolding pieces
pieces-Solid [] h = refl
pieces-Solid (c ∷ cs) (h, hs) = rw (h, pieces-Solid cs hs) refl

pieces-cons :
    (c : ℕ) (cs : List ℕ) → is_whitespace c ≡ false → pieces (c ∷ cs) ≡ cons_first c (pieces cs)
unfolding pieces
pieces-cons c cs h = rw h refl

pieces_at_space : (rest : List ℕ) → pieces (b' ' ∷ rest) ≡ [] ∷ pieces rest
unfolding pieces is_whitespace
pieces_at_space rest = refl

-- A text before a space is the first piece.
pieces-append : (cs rest : List ℕ) → Solid cs → pieces (cs ++ b' ' ∷ rest) ≡ cs ∷ pieces rest
pieces-append [] rest h = pieces_at_space rest
pieces-append (c ∷ cs) rest (h, hs) =
    pieces-cons c (cs ++ b' ' ∷ rest) h ∙ ap (cons_first c) (pieces-append cs rest hs)

abbrev pub write_generic : Bytes → List ℕ
write_generic raw = codes "\\# " ++ (to_string (length raw) ++ b' ' ∷ hex_encode raw)

mark-Solid : Solid (codes "\\#")
unfolding is_whitespace
mark-Solid = (refl, (refl, tt))

write_generic-pieces :
    (raw : Bytes)
    → AllBytes raw
    → pieces (write_generic raw) ≡ codes "\\#" ∷ (to_string (length raw) ∷ (hex_encode raw ∷ []))
write_generic-pieces raw h =
    let size : List ℕ = to_string (length raw) in
    pieces-append (codes "\\#") (size ++ b' ' ∷ hex_encode raw) mark-Solid
    ∙ ap (◌∷◌ (codes "\\#")) (
        pieces-append size (hex_encode raw)
          (AllDigits-Solid size (to_string-AllDigits (length raw)))
        ∙ ap (◌∷◌ size) (pieces-Solid (hex_encode raw) (hex_encode-Solid raw h)))

to_string-nonempty : (n : ℕ) → is_empty (to_string n) ≡ false
to_string-nonempty n = let (c, cs, e) = to_string-cons n in rw e refl

hex_encode-nonempty : (byte : ℕ) (raw : Bytes) → is_empty (hex_encode (byte ∷ raw)) ≡ false
unfolding hex_encode
hex_encode-nonempty byte raw = refl

-- Data of at least one byte that is written with its length and its hexadecimal digits is read back.
pub parse_generic_rdata-write_generic :
    (byte : ℕ) (raw : Bytes)
    → AllBytes (byte ∷ raw)
    → length (byte ∷ raw) < 2 ^ 64
    → parse_generic_rdata (write_generic (byte ∷ raw)) ≡ some (byte ∷ raw)
unfolding parse_generic_rdata split_whitespace nonempty concat generic_fields bytes_eq
parse_generic_rdata-write_generic byte raw h fits =
    rw
      (
        write_generic-pieces (byte ∷ raw) h,
        to_string-nonempty (length (byte ∷ raw)),
        hex_encode-nonempty byte raw,
        parse_below-to_string (2 ^ 64) (length (byte ∷ raw)) fits,
        append-nil (hex_encode (byte ∷ raw)),
        hex_encode-hex_decode (byte ∷ raw) h,
        eq→== (length (byte ∷ raw)) (length (byte ∷ raw)) refl,
      )
      refl

-- No data has no third field, and is refused.
pub parse_generic_rdata_nothing : parse_generic_rdata (write_generic []) ≡ none
unfolding parse_generic_rdata split_whitespace nonempty generic_fields hex_encode pieces
    is_whitespace to_string
parse_generic_rdata_nothing = refl
