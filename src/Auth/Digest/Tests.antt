-- ===== src/Auth/Digest/Tests.antt =====
-- src/auth/digest.rs: a value with quotes, and two bytes.
use fetch.Common.{◌≡◌, refl, none, some, [], ◌∷◌, ◌++◌}
use fetch.Auth.Digest.{Chars, escape_quotes, replace, parse_quoted_string, quoted_loop}
use fetch.Auth.Digest.RoundTrip.{parse_quoted_string-escape_quotes}

abbrev value : Chars
value = b'a' ∷ 0x22 ∷ 0x5c ∷ []

escape_quotes-value : escape_quotes value ≡ b'a' ∷ 0x5c ∷ 0x22 ∷ 0x5c ∷ 0x5c ∷ []
unfolding escape_quotes replace
escape_quotes-value = refl

parse_quoted_string_open : parse_quoted_string (0x22 ∷ b'a' ∷ 0x5c ∷ 0x22 ∷ []) ≡ none
unfolding parse_quoted_string quoted_loop
parse_quoted_string_open = refl

parse_quoted_string-escape_quotes_example :
    parse_quoted_string (0x22 ∷ (escape_quotes value ++ (0x22 ∷ b',' ∷ [])))
    ≡ some (value, b',' ∷ [])
parse_quoted_string-escape_quotes_example = parse_quoted_string-escape_quotes value (b',' ∷ [])
