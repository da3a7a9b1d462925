-- ===== src/Websocket/Input/Round.antt =====
-- src/websocket/interactive.rs: a round of the loop over the input, where more bytes follow.
use fetch.Common.{
  ℕ, zero, suc, ◌≤◌, ◌<◌, ◌≡◌, refl, ap, inl, inr, Bool, Bool-cases, true, false, ◌&&◌, ◌||◌,
  Option, none, some, List, [], ◌∷◌, ◌++◌, Bytes, length, length-append, length-drop, take, drop,
  ltb, ltb→le, le→ltb, leb, ◌==◌, if◌then◌else◌, arith,
}
use fetch.Common.Utf8.{is_utf8}
use fetch.Websocket.Editor.{
  LineEditor, backspace, home, end_of_line, clear_line, delete_word, submit,
}
use fetch.Websocket.Input.{
  InputAction, utf8_sequence_width, handle_escape, InputRound, waits, cancels, goes_on, escaped,
  sequence_round, input_round,
}
use fetch.Websocket.Input.Escape.{Longer, handle_escape-Longer}

-- What more bytes make of a round: one that waits has changed nothing, and any other stays as it is,
-- with those bytes behind what it leaves, which is less than there was.
abbrev pub Stable : LineEditor → Bytes → Bytes → InputRound → InputRound → Type 0
Stable e buf more (waits e') longer = e' ≡ e
Stable e buf more cancels longer = longer ≡ cancels
Stable e buf more (goes_on e' actions left) longer =
    (longer ≡ goes_on e' actions (left ++ more)) × (length left < length buf)

abbrev Positive : Option ℕ → Type 0
Positive none = Unit
Positive (some width) = 0 < width

drop-append : (n : ℕ) (xs ys : Bytes) → n ≤ length xs → drop n (xs ++ ys) ≡ drop n xs ++ ys
drop-append zero xs ys h = refl
drop-append (suc n) [] ys h = absurd (omega arith)
drop-append (suc n) (x ∷ xs) ys h = drop-append n xs ys (omega arith)

take-append : (n : ℕ) (xs ys : Bytes) → n ≤ length xs → take n (xs ++ ys) ≡ take n xs
take-append zero xs ys h = refl
take-append (suc n) [] ys h = absurd (omega arith)
take-append (suc n) (x ∷ xs) ys h = ap (◌∷◌ x) (take-append n xs ys (omega arith))

escaped-Stable :
    (e : LineEditor) (buf more : Bytes) (r longer : LineEditor × ℕ)
    → Longer e buf 0 r longer
    → Stable e buf more (escaped r buf) (escaped longer (buf ++ more))
escaped-Stable e buf more (e', zero) longer h = h
escaped-Stable e buf more (e', suc taken) longer (same, within) = rw same (
  ap (goes_on e' []) (drop-append (suc taken) buf more (omega arith)),
  omega (arith, length-drop (suc taken) buf),
)

sequence_round-Stable :
    (e : LineEditor) (width : Option ℕ) (byte : ℕ) (rest more : Bytes)
    → Positive width
    → Stable e
        (byte ∷ rest)
        more
        (sequence_round e width rest (byte ∷ rest))
        (sequence_round e width (rest ++ more) (byte ∷ (rest ++ more)))
sequence_round-Stable e none byte rest more p = (refl, omega arith)
sequence_round-Stable e (some width) byte rest more p =
    let buf : Bytes = byte ∷ rest in
    elim (Bool-cases (ltb (length buf) width)) [
      | inl short ↦ rw short refl
      | inr whole ↦
          let inside = ltb→le (length buf) width whole in
          let longer =
            le→ltb (length (buf ++ more)) width (omega (arith, length-append buf more)) in
          rw (whole, longer, take-append width buf more inside, drop-append width buf more inside)
            (elim (Bool-cases (is_utf8 (take width buf))) [
              | inl valid ↦ rw valid (refl, omega (arith, length-drop width buf))
              | inr invalid ↦ rw invalid (refl, omega arith)
            ])
    ]

utf8_sequence_width-Positive : (byte : ℕ) → Positive (utf8_sequence_width byte)
unfolding utf8_sequence_width
utf8_sequence_width-Positive byte = elim (Bool-cases (leb byte 0x7f)) [
  | inl a ↦ rw a (omega arith)
  | inr a ↦ rw a (elim (Bool-cases (leb 0xc2 byte && leb byte 0xdf)) [
    | inl b ↦ rw b (omega arith)
    | inr b ↦ rw b (elim (Bool-cases (leb 0xe0 byte && leb byte 0xef)) [
      | inl c ↦ rw c (omega arith)
      | inr c ↦ rw c (elim (Bool-cases (leb 0xf0 byte && leb byte 0xf4)) [
        | inl d ↦ rw d (omega arith)
        | inr d ↦ rw d tt
      ])
    ])
  ])
]

-- A key that takes one byte.
one_byte :
    (e e' : LineEditor) (actions : List InputAction) (byte : ℕ) (rest more : Bytes)
    → Stable e (byte ∷ rest) more (goes_on e' actions rest) (goes_on e' actions (rest ++ more))
one_byte e e' actions byte rest more = (refl, omega arith)

-- One test of the round, where both branches are stable.
chosen :
    (e : LineEditor) (buf more : Bytes) (test : Bool) (a b a' b' : InputRound)
    → Stable e buf more a a'
    → Stable e buf more b b'
    → Stable e buf more (if test then a else b) (if test then a' else b')
chosen e buf more true a b a' b' h k = h
chosen e buf more false a b a' b' h k = k

pub input_round-Stable :
    (e : LineEditor) (byte : ℕ) (rest more : Bytes)
    → Stable e (byte ∷ rest) more (input_round e byte rest) (input_round e byte (rest ++ more))
unfolding input_round
input_round-Stable e byte rest more =
    let buf : Bytes = byte ∷ rest in
    let key = λ (e' : LineEditor). one_byte e e' [] byte rest more in
    chosen e buf more (byte == 0x1b) _ _ _ _
      (escaped-Stable e buf more (handle_escape e buf) (handle_escape e (buf ++ more))
        (handle_escape-Longer e buf more))
      (chosen e buf more (byte == 0x03 || byte == 0x04) _ _ _ _ refl (
        chosen e buf more (byte == 0x0d) _ _ _ _ (one_byte e (submit e).0 _ byte rest more) (
          chosen e buf more (byte == 0x7f || byte == 0x08) _ _ _ _ (key (backspace e).0) (
            chosen e buf more (byte == 0x01) _ _ _ _ (key (home e)) (
              chosen e buf more (byte == 0x05) _ _ _ _ (key (end_of_line e)) (
                chosen e buf more (byte == 0x15) _ _ _ _ (key (clear_line e)) (
                  chosen e buf more (byte == 0x17) _ _ _ _ (key (delete_word e)) (
                    chosen e buf more (leb 0x20 byte) _ _ _ _
                      (sequence_round-Stable e (utf8_sequence_width byte) byte rest more
                        (utf8_sequence_width-Positive byte))
                      (key e)))))))))
