-- ===== src/Cli/Tokenize/Tests.antt =====
-- src/cli/from_curl.rs: a few command lines.
use fetch.Common.{◌≡◌, refl, List, [], ◌∷◌, ok, err}
use fetch.Cli.Tokenize.{
  Chars, tokenize, end_of_input, end_in, end_token, tokenize_loop, step_in, outside_step,
  single_quoted_step, double_quoted_step, escaped_step, double_escaped_step, is_space, is_escapable,
  unterminated_single_quote,
}
use fetch.Cli.Tokenize.Quoting.{Quotes, single, double, quote_all, tokenize-quote_all}

-- a\ b "c\d" e\
tokenize_line :
    tokenize (
      b'a' ∷ 0x5c ∷ 0x20 ∷ b'b' ∷ 0x20 ∷ 0x22 ∷ b'c' ∷ 0x5c ∷ b'd' ∷ 0x22 ∷ 0x20 ∷ b'e' ∷ 0x5c ∷ [])
    ≡ ok ((b'a' ∷ 0x20 ∷ b'b' ∷ []) ∷ (b'c' ∷ 0x5c ∷ b'd' ∷ []) ∷ (b'e' ∷ 0x5c ∷ []) ∷ [])
unfolding tokenize end_of_input end_in end_token tokenize_loop step_in outside_step
    double_quoted_step escaped_step double_escaped_step is_space is_escapable
tokenize_line = refl

tokenize_unterminated : tokenize (0x27 ∷ b'a' ∷ []) ≡ err unterminated_single_quote
unfolding tokenize end_of_input end_in tokenize_loop step_in outside_step single_quoted_step
    is_space
tokenize_unterminated = refl

abbrev words : List (Quotes × Chars)
words = (single, b'i' ∷ 0x27 ∷ b'm' ∷ []) ∷ (double, 0x22 ∷ 0x5c ∷ 0x0a ∷ []) ∷ []

tokenize-quote_all_example :
    tokenize (quote_all words) ≡ ok ((b'i' ∷ 0x27 ∷ b'm' ∷ []) ∷ (0x22 ∷ 0x5c ∷ 0x0a ∷ []) ∷ [])
tokenize-quote_all_example = tokenize-quote_all words
