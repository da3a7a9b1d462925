-- ===== src/Auth/Digest/RoundTrip.antt =====
-- src/auth/digest.rs: what is written into a header is read again.
use Prim.Native.Nat.{bit_and}
use fetch.Common.{
  ℕ, ◌+◌, ◌-◌, ◌*◌, ◌/◌, ◌%◌, ◌^◌, ◌<◌, ◌≡◌, refl, ap, ◌∙◌, Bool-cases, true, false, some, [], ◌∷◌,
  ◌++◌, append_assoc, append-nil, Bytes, get_or, ltb, ◌==◌, ==→eq, if◌then◌else◌, inl, inr, ok,
  arith,
}
use fetch.Common.Bits.{holds_below, holds_below-test}
use fetch.Common.Text.{bytes_eq, to_ascii_lowercase}
use fetch.Auth.Digest.{
  Chars, replace, escape_quotes, quoted_loop, parse_quoted_string, hex_digits, hex_encode,
  Algorithm, md5, md5_sess, sha256, sha256_sess, sha512_256, sha512_256_sess, header_value,
  parse_algorithm,
}

-- One character of a quoted string.
abbrev escaped_char : ℕ → Chars
escaped_char c =
    if c == 0x5c then 0x5c ∷ 0x5c ∷ [] else if c == 0x22 then 0x5c ∷ 0x22 ∷ [] else c ∷ []

escape_quotes-cons :
    (c : ℕ) (value : Chars) → escape_quotes (c ∷ value) ≡ escaped_char c ++ escape_quotes value
unfolding escape_quotes replace
escape_quotes-cons c value = elim (Bool-cases (c == 0x5c)) [
  | inl slash ↦ rw slash refl
  | inr plain ↦
      rw plain
        (elim (Bool-cases (c == 0x22)) [ inl quote ↦ rw quote refl | inr other ↦ rw other refl ])
]

escape_quotes-nil : escape_quotes [] ≡ []
unfolding escape_quotes replace
escape_quotes-nil = refl

quoted_loop-char :
    (out : Chars) (c : ℕ) (rest : Chars)
    → quoted_loop out false (escaped_char c ++ rest) ≡ quoted_loop (out ++ c ∷ []) false rest
unfolding quoted_loop
quoted_loop-char out c rest = elim (Bool-cases (c == 0x5c)) [
  | inl slash ↦ let e = ==→eq c 0x5c slash in rw (slash, e) refl
  | inr plain ↦ rw plain (elim (Bool-cases (c == 0x22)) [
    | inl quote ↦ let e = ==→eq c 0x22 quote in rw (quote, e) refl
    | inr other ↦ rw other (rw (plain, other) refl)
  ])
]

quoted_loop-end : (out rest : Chars) → quoted_loop out false (0x22 ∷ rest) ≡ some (out, rest)
unfolding quoted_loop
quoted_loop-end out rest = refl

quoted_loop-escape_quotes :
    (out value rest : Chars)
    → quoted_loop out false (escape_quotes value ++ (0x22 ∷ rest)) ≡ some (out ++ value, rest)
quoted_loop-escape_quotes out [] rest =
    rw (escape_quotes-nil, append-nil out) (quoted_loop-end out rest)
quoted_loop-escape_quotes out (c ∷ value) rest =
    ap (λ (t : Chars). quoted_loop out false (t ++ (0x22 ∷ rest))) (escape_quotes-cons c value)
    ∙ ap (quoted_loop out false) (append_assoc (escaped_char c) (escape_quotes value) (0x22 ∷ rest))
    ∙ quoted_loop-char out c (escape_quotes value ++ (0x22 ∷ rest))
    ∙ quoted_loop-escape_quotes (out ++ c ∷ []) value rest
    ∙ ap (λ (t : Chars). some (t, rest)) (append_assoc out (c ∷ []) value)

-- A value that is escaped and put between quotes is read as it was, whatever characters it has, and
-- what follows the quotes is left.
pub parse_quoted_string-escape_quotes :
    (value rest : Chars)
    → parse_quoted_string (0x22 ∷ (escape_quotes value ++ (0x22 ∷ rest))) ≡ some (value, rest)
unfolding parse_quoted_string
parse_quoted_string-escape_quotes value rest = quoted_loop-escape_quotes [] value rest

-- The name of each algorithm in a header is read as that algorithm.
pub parse_algorithm-header_value :
    (algorithm : Algorithm) → parse_algorithm (header_value algorithm) ≡ ok algorithm
unfolding parse_algorithm header_value to_ascii_lowercase bytes_eq
parse_algorithm-header_value md5 = refl
parse_algorithm-header_value md5_sess = refl
parse_algorithm-header_value sha256 = refl
parse_algorithm-header_value sha256_sess = refl
parse_algorithm-header_value sha512_256 = refl
parse_algorithm-header_value sha512_256_sess = refl

-- A reader of the digits that `hex_encode` writes.
abbrev pub hex_value : ℕ → ℕ
hex_value c = if ltb c b'a' then c - b'0' else c - 87

unfoldable pub hex_decode : Chars → Bytes
hex_decode [] = []
hex_decode (c ∷ []) = []
hex_decode (c ∷ (d ∷ digits)) = (hex_value c * 16 + hex_value d) ∷ hex_decode digits

abbrev pub AllBytes : Bytes → Type 0
AllBytes [] = Unit
AllBytes (byte ∷ bytes) = (byte < 256) × AllBytes bytes

digit_table : holds_below 16 (λ n. hex_value (get_or hex_digits n 0) == n) ≡ true
unfolding holds_below
digit_table = refl

hex_value-digit : (n : ℕ) → n < 16 → hex_value (get_or hex_digits n 0) ≡ n
hex_value-digit n h = ==→eq _ _ (holds_below-test 16 n _ digit_table h)

low_table : holds_below 256 (λ x. bit_and x 0x0f == x % 16) ≡ true
unfolding holds_below
low_table = refl

-- Each byte is written as two digits, and the digits are those of the bytes in order.
pub hex_decode-hex_encode : (bytes : Bytes) → AllBytes bytes → hex_decode (hex_encode bytes) ≡ bytes
unfolding hex_encode hex_decode
hex_decode-hex_encode [] h = refl
hex_decode-hex_encode (byte ∷ bytes) (h, all) =
    let low : bit_and byte 0x0f ≡ byte % 16 = ==→eq _ _ (holds_below-test 256 byte _ low_table h) in
    let high = hex_value-digit (byte / 2 ^ 4) (omega arith) in
    let digit = hex_value-digit (byte % 16) (omega arith) in
    let sum : byte / 2 ^ 4 * 16 + byte % 16 ≡ byte = omega arith in
    rw (low, high, digit, sum) (ap (◌∷◌ byte) (hex_decode-hex_encode bytes all))
