-- ===== src/Websocket/Input/Tests.antt =====
-- src/websocket/interactive.rs: input that is cut within a character and within an escape sequence.
use fetch.Common.{◌≡◌, refl, [], ◌∷◌, ◌++◌}
use fetch.Common.Text.{codes}
use fetch.Common.Utf8.{is_utf8}
use fetch.Websocket.Editor.{empty_line, insert_char, move_left, clear_line, submit}
use fetch.Websocket.Input.{
  send, utf8_sequence_width, first_char, escape_final, handle_escape, input_round, input_loop,
  handle_input,
}
use fetch.Websocket.Input.Chunks.{continued, handle_input-append}

-- An e with an accent, in two bytes.
cut_character :
    handle_input empty_line (b'a' ∷ 0xc3 ∷ [])
    ≡ record { editor = record { buf = codes "a"; pos = 1 }; remaining = 0xc3 ∷ []; actions = [] }
unfolding handle_input input_loop input_round utf8_sequence_width insert_char first_char is_utf8
cut_character = refl

-- The cursor goes left, a letter is typed, and the line is sent.
line_sent :
    handle_input empty_line (b'a' ∷ 0x1b ∷ b'[' ∷ b'D' ∷ 0xc3 ∷ 0xa9 ∷ 0x0d ∷ [])
    ≡ record { editor = empty_line; remaining = []; actions = send (0xe9 ∷ b'a' ∷ []) ∷ [] }
unfolding handle_input input_loop input_round handle_escape escape_final move_left
    utf8_sequence_width insert_char first_char is_utf8 submit clear_line
line_sent = refl

handle_input-append_example :
    handle_input empty_line ((b'a' ∷ 0x1b ∷ []) ++ b'[' ∷ b'D' ∷ [])
    ≡ continued (handle_input empty_line (b'a' ∷ 0x1b ∷ [])) (b'[' ∷ b'D' ∷ [])
handle_input-append_example = handle_input-append empty_line (b'a' ∷ 0x1b ∷ []) (b'[' ∷ b'D' ∷ [])
