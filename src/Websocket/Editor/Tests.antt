-- ===== src/Websocket/Editor/Tests.antt =====
-- src/websocket/interactive.rs: a line that is edited.
use fetch.Common.{◌≡◌, refl, true, arith}
use fetch.Common.Text.{codes}
use fetch.Websocket.Editor.{LineEditor, apply, backspaced, word_deleted, backspace, delete_word}
use fetch.Websocket.Editor.Zipper.{Refined, apply-Refined}

abbrev line : LineEditor
line = record { buf = codes "ab cd  e"; pos = 7 }

word_before : apply word_deleted line ≡ (record { buf = codes "ab e"; pos = 3 }, true)
unfolding apply delete_word
word_before = refl

char_before : apply backspaced line ≡ (record { buf = codes "ab cd e"; pos = 6 }, true)
unfolding apply backspace
char_before = refl

apply-Refined_example : Refined line
apply-Refined_example = apply-Refined line (omega arith)
