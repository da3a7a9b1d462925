-- ===== src/Websocket/Input/Quiet.antt =====
-- src/websocket/interactive.rs: which rounds cancel.
use fetch.Common.{
  Option, none, some, take, ltb, leb, ◌==◌, ℕ, zero, suc, ◌≡◌, refl, Bool, true, false, ◌||◌, List,
  [], ◌∷◌, Bytes, length, if◌then◌else◌,
}
use fetch.Common.Utf8.{is_utf8}
use fetch.Websocket.Editor.{LineEditor, submit}
use fetch.Websocket.Input.{
  utf8_sequence_width, handle_escape, escaped, sequence_round, submitted, InputAction, send, cancel,
  InputRound, waits, cancels, goes_on, input_round,
}

abbrev pub is_cancel : InputAction → Bool
is_cancel (send text) = false
is_cancel cancel = true

-- Whether the input was cancelled, so that what follows is not looked at.
abbrev pub has_cancel : List InputAction → Bool
has_cancel [] = false
has_cancel (action ∷ actions) = is_cancel action || has_cancel actions

-- The actions of a round do not cancel, but for the round that does.
abbrev pub Quiet : InputRound → Type 0
Quiet (waits e) = Unit
Quiet cancels = Unit
Quiet (goes_on e actions left) = has_cancel actions ≡ false

Quiet-either : (test : Bool) (a b : InputRound) → Quiet a → Quiet b → Quiet (if test then a else b)
Quiet-either true a b h k = h
Quiet-either false a b h k = k

escaped-Quiet : (r : LineEditor × ℕ) (buf : Bytes) → Quiet (escaped r buf)
escaped-Quiet (e, zero) buf = tt
escaped-Quiet (e, suc taken) buf = refl

sequence_round-Quiet :
    (e : LineEditor) (width : Option ℕ) (rest buf : Bytes) → Quiet (sequence_round e width rest buf)
sequence_round-Quiet e none rest buf = refl
sequence_round-Quiet e (some width) rest buf =
    Quiet-either (ltb (length buf) width) _ _ tt
      (Quiet-either (is_utf8 (take width buf)) _ _ refl refl)

submitted-Quiet : (r : LineEditor × List ℕ) (rest : Bytes) → Quiet (submitted r rest)
submitted-Quiet (e, []) rest = refl
submitted-Quiet (e, c ∷ text) rest = refl

pub input_round-Quiet : (e : LineEditor) (byte : ℕ) (rest : Bytes) → Quiet (input_round e byte rest)
unfolding input_round
input_round-Quiet e byte rest =
    Quiet-either (byte == 0x1b) _ _ (escaped-Quiet (handle_escape e (byte ∷ rest)) (byte ∷ rest)) (
      Quiet-either (byte == 0x03 || byte == 0x04) _ _ tt (
        Quiet-either (byte == 0x0d) _ _ (submitted-Quiet (submit e) rest) (
          Quiet-either (byte == 0x7f || byte == 0x08) _ _ refl (
            Quiet-either (byte == 0x01) _ _ refl (
              Quiet-either (byte == 0x05) _ _ refl (
                Quiet-either (byte == 0x15) _ _ refl (
                  Quiet-either (byte == 0x17) _ _ refl (
                    Quiet-either (leb 0x20 byte) _ _
                      (sequence_round-Quiet e (utf8_sequence_width byte) rest (byte ∷ rest))
                      refl))))))))
