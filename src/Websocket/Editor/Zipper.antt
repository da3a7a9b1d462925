-- ===== src/Websocket/Editor/Zipper.antt =====
-- src/websocket/interactive.rs: the line editor against a line that is cut at the cursor.
use fetch.Common.{
  ◌++◌, append-nil, is_empty, ℕ, zero, suc, ◌+◌, ◌-◌, ◌≤◌, ◌≡◌, refl, ap, ◌∙◌, inl, inr, Bool,
  Bool-cases, true, false, not, List, [], ◌∷◌, length, get_or, leb, le→leb, gt→leb, ◌==◌,
  if◌then◌else◌, arith,
}
use fetch.Websocket.Editor.{
  LineEditor, insert_at, remove_at, insert_char, backspace, delete, move_left, move_right, home,
  end_of_line, clear_line, delete_while, is_blank, delete_word, set_text, Edit, insert, backspaced,
  deleted, moved_left, moved_right, at_home, at_end, line_cleared, word_deleted, text_set, apply,
}

-- What is left of the cursor, from there on, and what is right of it.
pub record Zipper : Type 0 where
  pub left : List ℕ
  pub right : List ℕ

abbrev pub rev_append : List ℕ → List ℕ → List ℕ
rev_append [] right = right
rev_append (c ∷ left) right = rev_append left (c ∷ right)

pub editor_of : Zipper → LineEditor
editor_of z = record { buf = rev_append z.left z.right; pos = length z.left }

abbrev pub skip_while : (ℕ → Bool) → List ℕ → List ℕ
skip_while test [] = []
skip_while test (c ∷ cs) = let rest = skip_while test cs in if test c then rest else c ∷ cs

-- What each key means.
pub edited : Edit → Zipper → Zipper × Bool
edited (insert ch) z = (record z { left = ch ∷ z.left }, true)
edited backspaced z = elim z.left [ [] ↦ (z, false) | c ∷ cs ↦ (record z { left = cs }, true) ]
edited deleted z = elim z.right [ [] ↦ (z, false) | c ∷ cs ↦ (record z { right = cs }, true) ]
edited moved_left z = elim z.left [
  | [] ↦ (z, false)
  | c ∷ cs ↦ (record { left = cs; right = c ∷ z.right }, true)
]
edited moved_right z = elim z.right [
  | [] ↦ (z, false)
  | c ∷ cs ↦ (record { left = c ∷ z.left; right = cs }, true)
]
edited at_home z = (record { left = []; right = rev_append z.left z.right }, true)
edited at_end z = (record { left = rev_append z.right z.left; right = [] }, true)
edited line_cleared z = (record { left = []; right = [] }, true)
edited word_deleted z =
    (record z { left = skip_while (λ c. not (is_blank c)) (skip_while is_blank z.left) }, true)
edited (text_set text) z = (record { left = rev_append text []; right = [] }, true)

insert_at-rev_append :
    (left right : List ℕ) (k c : ℕ)
    → insert_at (length left + k) c (rev_append left right) ≡ rev_append left (insert_at k c right)
unfolding insert_at
insert_at-rev_append [] right k c = let e : 0 + k ≡ k = omega arith in rw e refl
insert_at-rev_append (x ∷ left) right k c =
    let e : suc (length left) + k ≡ length left + suc k = omega arith in
    rw e (insert_at-rev_append left (x ∷ right) (suc k) c)

remove_at-rev_append :
    (left right : List ℕ) (k : ℕ)
    → remove_at (length left + k) (rev_append left right) ≡ rev_append left (remove_at k right)
unfolding remove_at
remove_at-rev_append [] right k = let e : 0 + k ≡ k = omega arith in rw e refl
remove_at-rev_append (x ∷ left) right k =
    let e : suc (length left) + k ≡ length left + suc k = omega arith in
    rw e (remove_at-rev_append left (x ∷ right) (suc k))

get_or-rev_append :
    (left right : List ℕ) (k d : ℕ)
    → get_or (rev_append left right) (length left + k) d ≡ get_or right k d
get_or-rev_append [] right k d = let e : 0 + k ≡ k = omega arith in rw e refl
get_or-rev_append (x ∷ left) right k d =
    let e : suc (length left) + k ≡ length left + suc k = omega arith in
    rw e (get_or-rev_append left (x ∷ right) (suc k) d)

length-rev_append :
    (left right : List ℕ) → length (rev_append left right) ≡ length left + length right
length-rev_append [] right = omega arith
length-rev_append (x ∷ left) right = omega (arith, length-rev_append left (x ∷ right))

suc-ne-zero : (n : ℕ) → (suc n == 0) ≡ false
suc-ne-zero n = ground arith

rev_append_twice :
    (xs left right : List ℕ) → rev_append (rev_append xs left) right ≡ rev_append left (xs ++ right)
rev_append_twice [] left right = refl
rev_append_twice (x ∷ xs) left right = rev_append_twice xs (x ∷ left) right

delete_while-rev_append :
    (test : ℕ → Bool) (left right : List ℕ)
    → delete_while test (length left) (rev_append left right)
      ≡ editor_of (record { left = skip_while test left; right = right })
unfolding delete_while editor_of remove_at
delete_while-rev_append test [] right = refl
delete_while-rev_append test (c ∷ left) right =
    let k : length left + 0 ≡ length left = omega arith in
    let char : get_or (rev_append left (c ∷ right)) (length left) 0 ≡ c =
      rw k at (get_or-rev_append left (c ∷ right) 0 0) in
    let without : remove_at (length left) (rev_append left (c ∷ right)) ≡ rev_append left right =
      rw k at (remove_at-rev_append left (c ∷ right) 0) in
    elim (Bool-cases (test c)) [
      | inl e ↦ rw (char, without, e) (delete_while-rev_append test left right)
      | inr e ↦ rw (char, e) refl
    ]

insert_char-editor_of :
    (ch : ℕ) (z : Zipper)
    → insert_char ch (editor_of z) ≡ editor_of (record z { left = ch ∷ z.left })
unfolding insert_char editor_of insert_at
insert_char-editor_of ch z =
    let k : length z.left + 0 ≡ length z.left = omega arith in
    let text : insert_at (length z.left) ch (rev_append z.left z.right)
        ≡ rev_append z.left (ch ∷ z.right) =
      rw k at (insert_at-rev_append z.left z.right 0 ch) in
    let next : length z.left + 1 ≡ suc (length z.left) = omega arith in rw (text, next) refl

backspace-editor_of :
    (c : ℕ) (left right : List ℕ)
    → backspace (editor_of (record { left = c ∷ left; right = right }))
      ≡ (editor_of (record { left = left; right = right }), true)
unfolding backspace editor_of remove_at
backspace-editor_of c left right =
    let k : length left + 0 ≡ length left = omega arith in
    let less : suc (length left) - 1 ≡ length left = omega arith in
    let without : remove_at (length left) (rev_append left (c ∷ right)) ≡ rev_append left right =
      rw k at (remove_at-rev_append left (c ∷ right) 0) in
    rw (suc-ne-zero (length left), less, without) refl

-- The cursor stands before the end exactly if something is right of it.
cursor_inside :
    (left right : List ℕ) → leb (length (rev_append left right)) (length left) ≡ is_empty right
cursor_inside left [] =
    le→leb (length (rev_append left [])) (length left) (omega (arith, length-rev_append left []))
cursor_inside left (c ∷ right) =
    gt→leb (length (rev_append left (c ∷ right))) (length left)
      (omega (arith, length-rev_append left (c ∷ right)))

delete-editor_of :
    (z : Zipper) → delete (editor_of z) ≡ (editor_of (edited deleted z).0, (edited deleted z).1)
unfolding delete editor_of edited remove_at
delete-editor_of z = go z.right
  where
    go :
        (right : List ℕ)
        → delete (editor_of (record z { right = right })) ≡ (
          editor_of (edited deleted (record z { right = right })).0,
          (edited deleted (record z { right = right })).1,
        )
    go [] = rw (cursor_inside z.left []) refl
    go (c ∷ right) =
        let k : length z.left + 0 ≡ length z.left = omega arith in
        rw (cursor_inside z.left (c ∷ right), rw k at (remove_at-rev_append z.left (c ∷ right) 0))
          refl

move_right-editor_of :
    (z : Zipper)
    → move_right (editor_of z) ≡ (editor_of (edited moved_right z).0, (edited moved_right z).1)
unfolding move_right editor_of edited
move_right-editor_of z = go z.right
  where
    go :
        (right : List ℕ)
        → move_right (editor_of (record z { right = right })) ≡ (
          editor_of (edited moved_right (record z { right = right })).0,
          (edited moved_right (record z { right = right })).1,
        )
    go [] = rw (cursor_inside z.left []) refl
    go (c ∷ right) =
        let next : length z.left + 1 ≡ suc (length z.left) = omega arith in
        rw (cursor_inside z.left (c ∷ right), next) refl

Means : (edit : LineEditor → LineEditor × Bool) (key : Edit) (right left : List ℕ) → Type 0
Means edit key right left = edit (editor_of (record { left = left; right = right })) ≡ (
  editor_of (edited key (record { left = left; right = right })).0,
  (edited key (record { left = left; right = right })).1,
)

backspace-left : (right left : List ℕ) → Means backspace backspaced right left
unfolding Means backspace editor_of edited
backspace-left right [] = refl
backspace-left right (c ∷ left) = backspace-editor_of c left right

move_left-left : (right left : List ℕ) → Means move_left moved_left right left
unfolding Means move_left editor_of edited
move_left-left right [] = refl
move_left-left right (c ∷ left) =
    let less : suc (length left) - 1 ≡ length left = omega arith in
    rw (suc-ne-zero (length left), less) refl

delete_word-left :
    (right left : List ℕ)
    → delete_word (editor_of (record { left = left; right = right }))
      ≡ editor_of (edited word_deleted (record { left = left; right = right })).0
unfolding delete_word editor_of edited delete_while
delete_word-left right [] = refl
delete_word-left right (c ∷ left) =
    let spaceless = skip_while is_blank (c ∷ left) in
    rw (delete_while-rev_append is_blank (c ∷ left) right, suc-ne-zero (length left))
      (delete_while-rev_append (λ c. not (is_blank c)) spaceless right)

end_of_line-editor_of : (z : Zipper) → end_of_line (editor_of z) ≡ editor_of (edited at_end z).0
unfolding end_of_line editor_of edited
end_of_line-editor_of z =
    let text : rev_append (rev_append z.right z.left) [] ≡ rev_append z.left z.right =
      rev_append_twice z.right z.left [] ∙ ap (rev_append z.left) (append-nil z.right) in
    let size : length (rev_append z.right z.left) ≡ length (rev_append z.left z.right) =
      omega (arith, length-rev_append z.right z.left, length-rev_append z.left z.right) in
    rw (text, size) refl

set_text-editor_of :
    (text : List ℕ) (z : Zipper)
    → set_text text (editor_of z) ≡ editor_of (edited (text_set text) z).0
unfolding set_text editor_of edited
set_text-editor_of text z =
    let same : rev_append (rev_append text []) [] ≡ text =
      rev_append_twice text [] [] ∙ append-nil text in
    let size : length (rev_append text []) ≡ length text =
      omega (arith, length-rev_append text []) in
    rw (same, size) refl

apply-editor_of :
    (key : Edit) (z : Zipper)
    → apply key (editor_of z) ≡ (editor_of (edited key z).0, (edited key z).1)
unfolding apply edited editor_of home clear_line Means
apply-editor_of (insert ch) z = ap (λ (e : LineEditor). (e, true)) (insert_char-editor_of ch z)
apply-editor_of backspaced z = backspace-left z.right z.left
apply-editor_of deleted z = delete-editor_of z
apply-editor_of moved_left z = move_left-left z.right z.left
apply-editor_of moved_right z = move_right-editor_of z
apply-editor_of at_home z = refl
apply-editor_of at_end z = ap (λ (e : LineEditor). (e, true)) (end_of_line-editor_of z)
apply-editor_of line_cleared z = refl
apply-editor_of word_deleted z =
    ap (λ (e : LineEditor). (e, true)) (delete_word-left z.right z.left)
apply-editor_of (text_set text) z = ap (λ (e : LineEditor). (e, true)) (set_text-editor_of text z)

cut :
    (n : ℕ) (left right : List ℕ)
    → n ≤ length right
    → (z : Zipper) × (rev_append z.left z.right ≡ rev_append left right)
      × (length z.left ≡ n + length left)
cut zero left right h = (record { left = left; right = right }, refl, omega arith)
cut (suc n) left [] h = absurd (omega arith)
cut (suc n) left (c ∷ right) h =
    let (z, text, size) = cut n (c ∷ left) right (omega arith) in (z, text, omega arith)

-- What an editor does, as a line that is cut at the cursor.
abbrev pub Refined : LineEditor → Type 0
Refined e =
    (z : Zipper) × (editor_of z ≡ e)
    × ((key : Edit) → apply key e ≡ (editor_of (edited key z).0, (edited key z).1))

-- An editor whose cursor is within its text stands for a line that is cut at the cursor, and each key
-- does to it what the key means for that line, and reports the same; so the cursor stays within.
pub apply-Refined : (e : LineEditor) → e.pos ≤ length e.buf → Refined e
unfolding editor_of
apply-Refined e h =
    let (z, text, size) = cut e.pos [] e.buf h in
    let place : length z.left ≡ e.pos = omega arith in
    let same : editor_of z ≡ e = rw (text, place) refl in
    (z, same, λ key. rw (← same) (apply-editor_of key z))
