-- ===== src/Cli/Tokenize/Quoting.antt =====
-- src/cli/from_curl.rs: words that are quoted for a shell are cut out again as they were.
use fetch.Common.{
  ℕ, Bool, Bool-cases, true, false, ◌||◌, List, [], ◌∷◌, ◌++◌, append_assoc, append-nil, ◌==◌,
  ==→eq, if◌then◌else◌, ok, ◌≡◌, refl, ap, ◌∙◌, inl, inr,
}
use fetch.Cli.Tokenize.{
  Chars, Tokenizer, Mode, outside, single_quoted, double_quoted, end_token, is_space, is_escapable,
  outside_step, single_quoted_step, double_quoted_step, escaped_step, double_escaped_step, step_in,
  tokenize_loop, end_in, end_of_input, tokenize,
}

pub data Quotes : Type 0 where
  single double : Quotes

-- A word between single quotes: one of its own ends them, stands behind a backslash, and begins them
-- again.
abbrev pub single_body : Chars → Chars
single_body [] = []
single_body (c ∷ word) =
    (if c == 0x27 then 0x27 ∷ 0x5c ∷ 0x27 ∷ 0x27 ∷ [] else c ∷ []) ++ single_body word

-- A word between double quotes: a backslash before each character that is to be escaped.
abbrev pub double_body : Chars → Chars
double_body [] = []
double_body (c ∷ word) = (if is_escapable c then 0x5c ∷ c ∷ [] else c ∷ []) ++ double_body word

unfoldable pub quote : Quotes → Chars → Chars
quote single word = 0x27 ∷ (single_body word ++ 0x27 ∷ [])
quote double word = 0x22 ∷ (double_body word ++ 0x22 ∷ [])

-- Words, each quoted in its own way and with a space behind.
unfoldable pub quote_all : List (Quotes × Chars) → Chars
quote_all [] = []
quote_all ((quotes, word) ∷ words) = quote quotes word ++ (0x20 ∷ quote_all words)

abbrev pub words_of : List (Quotes × Chars) → List Chars
words_of [] = []
words_of ((quotes, word) ∷ words) = word ∷ words_of words

tokenize_loop-append :
    (t : Tokenizer) (xs ys : Chars)
    → tokenize_loop t (xs ++ ys) ≡ tokenize_loop (tokenize_loop t xs) ys
unfolding tokenize_loop
tokenize_loop-append t [] ys = refl
tokenize_loop-append t (x ∷ xs) ys = tokenize_loop-append (step_in t.mode t x) xs ys

abbrev at : Mode → List Chars → Chars → Bool → Tokenizer
at mode tokens current has = record {
  mode = mode;
  tokens = tokens;
  current = current;
  has_content = has;
}

-- One character of a word, between single quotes. It may leave the word with content.
abbrev after_single : ℕ → Bool → Bool
after_single c has = if c == 0x27 then true else has

single_one :
    (tokens : List Chars) (current : Chars) (has : Bool) (c : ℕ)
    → tokenize_loop
        (at single_quoted tokens current has)
        (if c == 0x27 then 0x27 ∷ 0x5c ∷ 0x27 ∷ 0x27 ∷ [] else c ∷ [])
      ≡ at single_quoted tokens (current ++ c ∷ []) (after_single c has)
unfolding tokenize_loop step_in single_quoted_step outside_step escaped_step is_space
single_one tokens current has c = elim (Bool-cases (c == 0x27)) [
  | inl quoted ↦ let e = ==→eq c 0x27 quoted in rw (quoted, e) refl
  | inr plain ↦ rw plain (rw plain refl)
]

no_part : (a b c d : Bool) → ((a || b) || (c || d)) ≡ false → (a ≡ false) × (b ≡ false)
no_part true b c d h = cc
no_part false true c d h = cc
no_part false false c d h = (refl, refl)

not_escapable : (c : ℕ) → is_escapable c ≡ false → ((c == 0x22) ≡ false) × ((c == 0x5c) ≡ false)
unfolding is_escapable
not_escapable c h = no_part (c == 0x22) (c == 0x5c) (c == 0x24) (c == 0x60) h

tokenize_loop-nil : (t : Tokenizer) → tokenize_loop t [] ≡ t
unfolding tokenize_loop
tokenize_loop-nil t = refl

single_start :
    (tokens : List Chars) (rest : Chars)
    → tokenize_loop (at outside tokens [] false) (0x27 ∷ rest)
      ≡ tokenize_loop (at single_quoted tokens [] false) rest
unfolding tokenize_loop step_in outside_step is_space
single_start tokens rest = refl

double_start :
    (tokens : List Chars) (rest : Chars)
    → tokenize_loop (at outside tokens [] false) (0x22 ∷ rest)
      ≡ tokenize_loop (at double_quoted tokens [] false) rest
unfolding tokenize_loop step_in outside_step is_space
double_start tokens rest = refl

double_one :
    (tokens : List Chars) (current : Chars) (has : Bool) (c : ℕ)
    → tokenize_loop
        (at double_quoted tokens current has)
        (if is_escapable c then 0x5c ∷ c ∷ [] else c ∷ [])
      ≡ at double_quoted tokens (current ++ c ∷ []) has
unfolding tokenize_loop step_in double_quoted_step double_escaped_step
double_one tokens current has c = elim (Bool-cases (is_escapable c)) [
  | inl special ↦ rw (special, special) refl
  | inr plain ↦
      let (quote_no, slash_no) = not_escapable c plain in rw (plain, quote_no, slash_no) refl
]

single_body_run :
    (tokens : List Chars) (current word : Chars) (has : Bool)
    → (has' : Bool) × (tokenize_loop (at single_quoted tokens current has) (single_body word)
        ≡ at single_quoted tokens (current ++ word) has')
single_body_run tokens current [] has = (has, rw (append-nil current) (tokenize_loop-nil _))
single_body_run tokens current (c ∷ word) has =
    let (has', e) = single_body_run tokens (current ++ c ∷ []) word (after_single c has) in
    (
      has',
      tokenize_loop-append (at single_quoted tokens current has) _ (single_body word)
          ∙ ap (λ (t : Tokenizer). tokenize_loop t (single_body word))
              (single_one tokens current has c)
          ∙ e
          ∙ ap (λ (t : Chars). at single_quoted tokens t has') (append_assoc current (c ∷ []) word),
    )

double_body_run :
    (tokens : List Chars) (current word : Chars) (has : Bool)
    → tokenize_loop (at double_quoted tokens current has) (double_body word)
      ≡ at double_quoted tokens (current ++ word) has
double_body_run tokens current [] has = rw (append-nil current) (tokenize_loop-nil _)
double_body_run tokens current (c ∷ word) has =
    tokenize_loop-append (at double_quoted tokens current has) _ (double_body word)
    ∙ ap (λ (t : Tokenizer). tokenize_loop t (double_body word)) (double_one tokens current has c)
    ∙ double_body_run tokens (current ++ c ∷ []) word has
    ∙ ap (λ (t : Chars). at double_quoted tokens t has) (append_assoc current (c ∷ []) word)

-- The quote that ends a word, and the space behind it.
single_end :
    (tokens : List Chars) (current : Chars) (has : Bool) (rest : Chars)
    → tokenize_loop (at single_quoted tokens current has) (0x27 ∷ (0x20 ∷ rest))
      ≡ tokenize_loop (at outside (tokens ++ current ∷ []) [] false) rest
unfolding tokenize_loop step_in single_quoted_step outside_step is_space end_token
single_end tokens current has rest = refl

double_end :
    (tokens : List Chars) (current : Chars) (has : Bool) (rest : Chars)
    → tokenize_loop (at double_quoted tokens current has) (0x22 ∷ (0x20 ∷ rest))
      ≡ tokenize_loop (at outside (tokens ++ current ∷ []) [] false) rest
unfolding tokenize_loop step_in double_quoted_step outside_step is_space end_token
double_end tokens current has rest = refl

-- A quoted word between two others.
tokenize_loop-quote :
    (tokens : List Chars) (quotes : Quotes) (word rest : Chars)
    → tokenize_loop (at outside tokens [] false) (quote quotes word ++ (0x20 ∷ rest))
      ≡ tokenize_loop (at outside (tokens ++ word ∷ []) [] false) rest
unfolding quote
tokenize_loop-quote tokens single word rest =
    let (has, e) = single_body_run tokens [] word false in
    single_start tokens ((single_body word ++ 0x27 ∷ []) ++ (0x20 ∷ rest))
    ∙ ap (tokenize_loop (at single_quoted tokens [] false))
        (append_assoc (single_body word) (0x27 ∷ []) (0x20 ∷ rest))
    ∙ tokenize_loop-append (at single_quoted tokens [] false) (single_body word)
        (0x27 ∷ (0x20 ∷ rest))
    ∙ ap (λ (t : Tokenizer). tokenize_loop t (0x27 ∷ (0x20 ∷ rest))) e
    ∙ single_end tokens word has rest
tokenize_loop-quote tokens double word rest =
    double_start tokens ((double_body word ++ 0x22 ∷ []) ++ (0x20 ∷ rest))
    ∙ ap (tokenize_loop (at double_quoted tokens [] false))
        (append_assoc (double_body word) (0x22 ∷ []) (0x20 ∷ rest))
    ∙ tokenize_loop-append (at double_quoted tokens [] false) (double_body word)
        (0x22 ∷ (0x20 ∷ rest))
    ∙ ap (λ (t : Tokenizer). tokenize_loop t (0x22 ∷ (0x20 ∷ rest)))
        (double_body_run tokens [] word false)
    ∙ double_end tokens word false rest

tokenize_loop-quote_all :
    (tokens : List Chars) (words : List (Quotes × Chars))
    → tokenize_loop (at outside tokens [] false) (quote_all words)
      ≡ at outside (tokens ++ words_of words) [] false
unfolding quote_all
tokenize_loop-quote_all tokens [] = rw (append-nil tokens) (tokenize_loop-nil _)
tokenize_loop-quote_all tokens ((quotes, word) ∷ words) =
    tokenize_loop-quote tokens quotes word (quote_all words)
    ∙ tokenize_loop-quote_all (tokens ++ word ∷ []) words
    ∙ ap (λ (t : List Chars). at outside t [] false)
        (append_assoc tokens (word ∷ []) (words_of words))

-- Whatever characters the words have, and in whichever way each is quoted, the words of the line are
-- cut out again as they were.
pub tokenize-quote_all :
    (words : List (Quotes × Chars)) → tokenize (quote_all words) ≡ ok (words_of words)
unfolding tokenize end_of_input end_in end_token
tokenize-quote_all words = rw (tokenize_loop-quote_all [] words) refl
