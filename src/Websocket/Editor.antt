-- ===== src/Websocket/Editor.antt =====
-- src/websocket/interactive.rs: the line editor. A text is the list of its code points.
pub mod Zipper
mod Tests
use fetch.Common.{
  ℕ, zero, suc, ◌+◌, ◌-◌, Bool, true, false, not, List, [], ◌∷◌, length, get_or, ltb, leb, ◌==◌,
  if◌then◌else◌,
}

pub record LineEditor : Type 0 where
  pub buf : List ℕ
  pub pos : ℕ

abbrev pub empty_line : LineEditor
empty_line = record { buf = []; pos = 0 }

-- `Vec::insert` and `Vec::remove`, which panic out of bounds.
pub insert_at : ℕ → ℕ → List ℕ → List ℕ
insert_at zero ch buf = ch ∷ buf
insert_at (suc i) ch [] = []
insert_at (suc i) ch (c ∷ buf) = c ∷ insert_at i ch buf

pub remove_at : ℕ → List ℕ → List ℕ
remove_at i [] = []
remove_at zero (c ∷ buf) = buf
remove_at (suc i) (c ∷ buf) = c ∷ remove_at i buf

unfoldable pub insert_char : ℕ → LineEditor → LineEditor
unfolding insert_at
insert_char ch e = record { buf = insert_at e.pos ch e.buf; pos = e.pos + 1 }

-- `true` if there was something to delete.
unfoldable pub backspace : LineEditor → LineEditor × Bool
unfolding remove_at
backspace e =
    if e.pos == 0
    then (e, false)
    else (record { buf = remove_at (e.pos - 1) e.buf; pos = e.pos - 1 }, true)

unfoldable pub delete : LineEditor → LineEditor × Bool
unfolding remove_at
delete e =
    if leb (length e.buf) e.pos
    then (e, false)
    else (record e { buf = remove_at e.pos e.buf }, true)

unfoldable pub move_left : LineEditor → LineEditor × Bool
move_left e = if e.pos == 0 then (e, false) else (record e { pos = e.pos - 1 }, true)

unfoldable pub move_right : LineEditor → LineEditor × Bool
move_right e = if leb (length e.buf) e.pos then (e, false) else (record e { pos = e.pos + 1 }, true)

unfoldable pub home : LineEditor → LineEditor
home e = record e { pos = 0 }

unfoldable pub end_of_line : LineEditor → LineEditor
end_of_line e = record e { pos = length e.buf }

unfoldable pub clear_line : LineEditor → LineEditor
clear_line e = empty_line

-- `while self.pos > 0 && test(self.buf[self.pos - 1])`, from the place of the cursor.
pub delete_while : (ℕ → Bool) → ℕ → List ℕ → LineEditor
unfolding remove_at
delete_while test zero buf = record { buf = buf; pos = 0 }
delete_while test (suc i) buf =
    let deleted = delete_while test i (remove_at i buf) in
    if test (get_or buf i 0) then deleted else record { buf = buf; pos = suc i }

abbrev pub is_blank : ℕ → Bool
is_blank c = c == b' '

unfoldable pub delete_word : LineEditor → LineEditor
unfolding delete_while
delete_word e =
    let spaceless = delete_while is_blank e.pos e.buf in
    if e.pos == 0 then e else delete_while (λ c. not (is_blank c)) spaceless.pos spaceless.buf

-- The line is cleared, and its text is given.
unfoldable pub submit : LineEditor → LineEditor × List ℕ
submit e = (clear_line e, e.buf)

unfoldable pub set_text : List ℕ → LineEditor → LineEditor
set_text text e = record { buf = text; pos = length text }

-- The keys of the editor, and what they do; `true` where the source gives no result.
pub data Edit : Type 0 where
  insert : ℕ → Edit
  backspaced deleted moved_left moved_right at_home at_end line_cleared word_deleted : Edit
  text_set : List ℕ → Edit

pub apply : Edit → LineEditor → LineEditor × Bool
apply (insert ch) e = (insert_char ch e, true)
apply backspaced e = backspace e
apply deleted e = delete e
apply moved_left e = move_left e
apply moved_right e = move_right e
apply at_home e = (home e, true)
apply at_end e = (end_of_line e, true)
apply line_cleared e = (clear_line e, true)
apply word_deleted e = (delete_word e, true)
apply (text_set text) e = (set_text text e, true)
