-- ===== src/Websocket/Input.antt =====
-- src/websocket/interactive.rs: the bytes that the terminal sends, as keys of the editor. What is drawn
-- on the way is not modelled; its writes succeed.
mod Escape
mod Round
pub mod Quiet
pub mod Chunks
mod Tests
use fetch.Common.{
  ℕ, zero, suc, ◌+◌, ◌*◌, ◌%◌, Bool, true, false, ◌&&◌, ◌||◌, Option, none, some, List, [], ◌∷◌,
  ◌++◌, Bytes, length, is_empty, take, drop, ltb, leb, ◌==◌, if◌then◌else◌,
}
use fetch.Common.Utf8.{is_utf8}
use fetch.Websocket.Editor.{
  LineEditor, insert_char, backspace, delete, move_left, move_right, home, end_of_line, clear_line,
  delete_word, submit,
}

pub data InputAction : Type 0 where
  send : List ℕ → InputAction
  cancel : InputAction

pub utf8_sequence_width : ℕ → Option ℕ
utf8_sequence_width byte =
    if leb byte 0x7f
    then some 1
    else if leb 0xc2 byte && leb byte 0xdf
    then some 2
    else if leb 0xe0 byte && leb byte 0xef
    then some 3
    else if leb 0xf0 byte && leb byte 0xf4
    then some 4
    else none

-- `chars().next()` of a character's bytes: the six low bits of each byte behind the first.
pub first_char : Bytes → ℕ
first_char [] = 0
first_char (a ∷ []) = a
first_char (a ∷ (b ∷ [])) = a % 32 * 64 + b % 64
first_char (a ∷ (b ∷ (c ∷ []))) = (a % 16 * 64 + b % 64) * 64 + c % 64
first_char (a ∷ (b ∷ (c ∷ (d ∷ rest)))) = ((a % 8 * 64 + b % 64) * 64 + c % 64) * 64 + d % 64

-- Behind an escape and a bracket: how many bytes there are up to the final one.
pub csi_end : ℕ → Bytes → ℕ
csi_end index [] = 0
csi_end index (byte ∷ rest) =
    let later = csi_end (index + 1) rest in
    if leb 0x40 byte && leb byte 0x7e then index + 1 else later

pub escape_tilde : LineEditor → Bytes → LineEditor × ℕ
escape_tilde e [] = (e, 0)
escape_tilde e (byte ∷ rest) = if byte == b'~' then ((delete e).0, 4) else (e, 3)

pub escape_final : LineEditor → Bytes → LineEditor × ℕ
escape_final e [] = (e, 0)
escape_final e (byte ∷ rest) =
    if byte == b'C'
    then ((move_right e).0, 3)
    else if byte == b'D'
    then ((move_left e).0, 3)
    else if byte == b'H'
    then (home e, 3)
    else if byte == b'F'
    then (end_of_line e, 3)
    else if byte == b'3'
    then escape_tilde e rest
    else (e, csi_end 2 (byte ∷ rest))

-- How many bytes are taken; none if the sequence is incomplete.
pub handle_escape : LineEditor → Bytes → LineEditor × ℕ
handle_escape e [] = (e, 0)
handle_escape e (escape ∷ []) = (e, 0)
handle_escape e (escape ∷ (byte ∷ rest)) = if byte == b'[' then escape_final e rest else (e, 1)

-- How a round of the loop ends: with bytes to wait for, with a cancellation, or with what is done and
-- left.
pub data InputRound : Type 0 where
  waits : LineEditor → InputRound
  cancels : InputRound
  goes_on : LineEditor → List InputAction → Bytes → InputRound

abbrev pub escaped : LineEditor × ℕ → Bytes → InputRound
escaped (e, zero) buf = waits e
escaped (e, suc taken) buf = goes_on e [] (drop (suc taken) buf)

abbrev pub sequence_round : LineEditor → Option ℕ → Bytes → Bytes → InputRound
sequence_round e none rest buf = goes_on e [] rest
sequence_round e (some width) rest buf =
    if ltb (length buf) width
    then waits e
    else if is_utf8 (take width buf)
    then goes_on (insert_char (first_char (take width buf)) e) [] (drop width buf)
    else goes_on e [] rest

abbrev pub submitted : LineEditor × List ℕ → Bytes → InputRound
submitted (e, text) rest = goes_on e (if is_empty text then [] else send text ∷ []) rest

pub input_round : LineEditor → ℕ → Bytes → InputRound
input_round e byte rest =
    if byte == 0x1b
    then escaped (handle_escape e (byte ∷ rest)) (byte ∷ rest)
    else if byte == 0x03 || byte == 0x04
    then cancels
    else if byte == 0x0d
    then submitted (submit e) rest
    else if byte == 0x7f || byte == 0x08
    then goes_on (backspace e).0 [] rest
    else if byte == 0x01
    then goes_on (home e) [] rest
    else if byte == 0x05
    then goes_on (end_of_line e) [] rest
    else if byte == 0x15
    then goes_on (clear_line e) [] rest
    else if byte == 0x17
    then goes_on (delete_word e) [] rest
    else if leb 0x20 byte
    then sequence_round e (utf8_sequence_width byte) rest (byte ∷ rest)
    else goes_on e [] rest

-- The editor afterwards, and what `handle_input` returns.
pub record Outcome : Type 0 where
  pub editor : LineEditor
  pub remaining : Bytes
  pub actions : List InputAction

abbrev pub after : List InputAction → Outcome → Outcome
after actions o = record o { actions = actions ++ o.actions }

-- Each round takes a byte, so the length of the input is fuel enough.
pub input_loop : ℕ → LineEditor → Bytes → Outcome
input_loop fuel e [] = record { editor = e; remaining = []; actions = [] }
input_loop zero e (byte ∷ rest) = record { editor = e; remaining = byte ∷ rest; actions = [] }
input_loop (suc fuel) e (byte ∷ rest) = elim (input_round e byte rest) [
  | waits e' ↦ record { editor = e'; remaining = byte ∷ rest; actions = [] }
  | cancels ↦ record { editor = e; remaining = []; actions = cancel ∷ [] }
  | goes_on e' actions left ↦ after actions (input_loop fuel e' left)
]

pub handle_input : LineEditor → Bytes → Outcome
handle_input e buf = input_loop (length buf) e buf
