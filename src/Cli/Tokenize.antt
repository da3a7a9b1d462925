-- ===== src/Cli/Tokenize.antt =====
-- src/cli/from_curl.rs: `tokenize`, which cuts a curl command into words as a shell does.
-- A `char` is its code point. The cursor of the source is the rest of the list, and where the source
-- looks at the next character behind a backslash, the model goes on in a mode of its own.
pub mod Quoting
mod Tests
use fetch.Common.{
  ℕ, Bool, true, false, ◌||◌, List, [], ◌∷◌, ◌++◌, ◌==◌, if◌then◌else◌, Result, ok, err,
}

abbrev pub Chars : Type 0
Chars = List ℕ

pub data TokenizeError : Type 0 where
  unterminated_single_quote unterminated_double_quote : TokenizeError

-- Where the cursor stands: between the arms of the `match`, in a loop of quotes, or behind a backslash.
pub data Mode : Type 0 where
  outside single_quoted double_quoted : Mode
  escaped double_escaped : Mode

pub record Tokenizer : Type 0 where
  pub mode : Mode
  pub tokens : List Chars
  pub current : Chars
  pub has_content : Bool

abbrev pub start : Tokenizer
start = record { mode = outside; tokens = []; current = []; has_content = false }

-- `' ' | '\t' | '\n' | '\r'`
pub is_space : ℕ → Bool
is_space c = ((c == b' ') || (c == 0x09)) || ((c == 0x0a) || (c == 0x0d))

-- `'"' | '\\' | '$' | '`'`
pub is_escapable : ℕ → Bool
is_escapable c = ((c == 0x22) || (c == 0x5c)) || ((c == 0x24) || (c == 0x60))

-- `current.push(c)`
abbrev pub push_char : Tokenizer → ℕ → Tokenizer
push_char t c = record t { current = t.current ++ c ∷ [] }

pub end_token : Tokenizer → Tokenizer
end_token t =
    if t.has_content
    then record t { tokens = t.tokens ++ t.current ∷ []; current = []; has_content = false }
    else t

-- An arm of the `match`.
pub outside_step : Tokenizer → ℕ → Tokenizer
outside_step t c =
    if is_space c
    then end_token t
    else if c == 0x27
    then record t { mode = single_quoted }
    else if c == 0x22
    then record t { mode = double_quoted }
    else if c == 0x5c
    then record t { mode = escaped }
    else record (push_char t c) { has_content = true }

pub single_quoted_step : Tokenizer → ℕ → Tokenizer
single_quoted_step t c =
    if c == 0x27 then record t { mode = outside; has_content = true } else push_char t c

pub double_quoted_step : Tokenizer → ℕ → Tokenizer
double_quoted_step t c =
    if c == 0x22
    then record t { mode = outside; has_content = true }
    else if c == 0x5c
    then record t { mode = double_escaped }
    else push_char t c

-- A backslash before the end of a line is dropped with it.
pub escaped_step : Tokenizer → ℕ → Tokenizer
escaped_step t c =
    if c == 0x0a
    then record t { mode = outside }
    else record (push_char t c) { mode = outside; has_content = true }

-- Between double quotes a backslash stays, unless it stands before a character that it escapes.
pub double_escaped_step : Tokenizer → ℕ → Tokenizer
double_escaped_step t c =
    if is_escapable c
    then record (push_char t c) { mode = double_quoted }
    else record (push_char (push_char t 0x5c) c) { mode = double_quoted }

pub step_in : Mode → Tokenizer → ℕ → Tokenizer
step_in outside t c = outside_step t c
step_in single_quoted t c = single_quoted_step t c
step_in double_quoted t c = double_quoted_step t c
step_in escaped t c = escaped_step t c
step_in double_escaped t c = double_escaped_step t c

pub tokenize_loop : Tokenizer → Chars → Tokenizer
tokenize_loop t [] = t
tokenize_loop t (c ∷ chars) = tokenize_loop (step_in t.mode t c) chars

-- The end of the input; a backslash there stands for itself.
pub end_in : Mode → Tokenizer → Result TokenizeError (List Chars)
end_in outside t = ok (end_token t).tokens
end_in single_quoted t = err unterminated_single_quote
end_in double_quoted t = err unterminated_double_quote
end_in escaped t = ok (end_token (record (push_char t 0x5c) { has_content = true })).tokens
end_in double_escaped t = err unterminated_double_quote

pub end_of_input : Tokenizer → Result TokenizeError (List Chars)
end_of_input t = end_in t.mode t

pub tokenize : Chars → Result TokenizeError (List Chars)
tokenize input = end_of_input (tokenize_loop start input)
