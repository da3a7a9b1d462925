-- ===== src/Websocket/Input/Chunks.antt =====
-- src/websocket/interactive.rs: input that comes in pieces.
use fetch.Common.{
  Bool-cases, ℕ, zero, suc, ◌≤◌, ◌<◌, ◌≡◌, refl, sym, ap, ◌∙◌, inl, inr, Bool, false, ◌||◌, List,
  [], ◌∷◌, ◌++◌, append_assoc, Bytes, length, length-append, if◌then◌else◌, arith,
}
use fetch.Websocket.Editor.{LineEditor}
use fetch.Websocket.Input.{
  InputAction, send, cancel, InputRound, waits, cancels, goes_on, input_round, Outcome, after,
  input_loop, handle_input,
}
use fetch.Websocket.Input.Round.{Stable, input_round-Stable}
use fetch.Websocket.Input.Quiet.{has_cancel, Quiet, input_round-Quiet}

-- What comes of one piece and then of another one behind what the first left.
abbrev pub continued : Outcome → Bytes → Outcome
continued o more =
    if has_cancel o.actions
    then o
    else after o.actions (handle_input o.editor (o.remaining ++ more))

-- With fuel for each byte, more fuel changes nothing.
input_loop-fuel :
    (fuel other : ℕ) (e : LineEditor) (buf : Bytes)
    → length buf ≤ fuel
    → length buf ≤ other
    → input_loop fuel e buf ≡ input_loop other e buf
unfolding input_loop
input_loop-fuel zero zero e [] h k = refl
input_loop-fuel zero (suc other) e [] h k = refl
input_loop-fuel (suc fuel) zero e [] h k = refl
input_loop-fuel (suc fuel) (suc other) e [] h k = refl
input_loop-fuel zero other e (byte ∷ rest) h k = absurd (omega arith)
input_loop-fuel (suc fuel) zero e (byte ∷ rest) h k = absurd (omega arith)
input_loop-fuel (suc fuel) (suc other) e (byte ∷ rest) h k =
    go (λ e' left l. input_loop-fuel fuel other e' left (omega arith) (omega arith))
      (input_round e byte rest) (input_round-Stable e byte rest [])
  where
    go :
        ((e' : LineEditor) (left : Bytes)
          → length left < length (byte ∷ rest)
          → input_loop fuel e' left ≡ input_loop other e' left)
        → (round : InputRound) → Stable e (byte ∷ rest) [] round (input_round e byte (rest ++ []))
        → ◌≡◌ {A = Outcome}
            (elim round [
              | waits e' ↦ record { editor = e'; remaining = byte ∷ rest; actions = [] }
              | cancels ↦ record { editor = e; remaining = []; actions = cancel ∷ [] }
              | goes_on e' actions left ↦ after actions (input_loop fuel e' left)
            ])
            (elim round [
              | waits e' ↦ record { editor = e'; remaining = byte ∷ rest; actions = [] }
              | cancels ↦ record { editor = e; remaining = []; actions = cancel ∷ [] }
              | goes_on e' actions left ↦ after actions (input_loop other e' left)
            ])
    go later (waits e') h = refl
    go later cancels h = refl
    go later (goes_on e' actions left) (same, less) = ap (after actions) (later e' left less)

has_cancel-append :
    (actions others : List InputAction)
    → has_cancel (actions ++ others) ≡ has_cancel actions || has_cancel others
has_cancel-append [] others = refl
has_cancel-append (send text ∷ actions) others = has_cancel-append actions others
has_cancel-append (cancel ∷ actions) others = refl

-- Actions before the first piece change nothing in what follows, if none of them cancels.
continued-after :
    (actions : List InputAction) (o : Outcome) (more : Bytes)
    → has_cancel actions ≡ false
    → continued (after actions o) more ≡ after actions (continued o more)
continued-after actions o more h =
    let whole : has_cancel (actions ++ o.actions) ≡ has_cancel o.actions =
      has_cancel-append actions o.actions ∙ ap (λ (b : Bool). b || has_cancel o.actions) h in
    elim (Bool-cases (has_cancel o.actions)) [
      | inl stopped ↦ rw (whole, stopped) refl
      | inr open_ended ↦
          let later = (handle_input o.editor (o.remaining ++ more)).actions in
          rw (whole, open_ended, append_assoc actions o.actions later) refl
    ]

input_loop-nil :
    (fuel : ℕ) (e : LineEditor)
    → input_loop fuel e [] ≡ record { editor = e; remaining = []; actions = [] }
unfolding input_loop
input_loop-nil zero e = refl
input_loop-nil (suc fuel) e = refl

input_loop-waits :
    (fuel : ℕ) (e : LineEditor) (byte : ℕ) (rest : Bytes) {e' : LineEditor}
    → input_round e byte rest ≡ waits e'
    → input_loop (suc fuel) e (byte ∷ rest)
      ≡ record { editor = e'; remaining = byte ∷ rest; actions = [] }
unfolding input_loop
input_loop-waits fuel e byte rest h = rw (h, input_loop) refl

input_loop-cancels :
    (fuel : ℕ) (e : LineEditor) (byte : ℕ) (rest : Bytes)
    → input_round e byte rest ≡ cancels
    → input_loop (suc fuel) e (byte ∷ rest)
      ≡ record { editor = e; remaining = []; actions = cancel ∷ [] }
unfolding input_loop
input_loop-cancels fuel e byte rest h = rw (h, input_loop) refl

input_loop-goes_on :
    (fuel : ℕ) (e : LineEditor) (byte : ℕ) (rest : Bytes) {e' : LineEditor}
    {actions : List InputAction} {left : Bytes}
    → input_round e byte rest ≡ goes_on e' actions left
    → input_loop (suc fuel) e (byte ∷ rest) ≡ after actions (input_loop fuel e' left)
unfolding input_loop
input_loop-goes_on fuel e byte rest h = rw (h, input_loop) refl

input_loop-append :
    (fuel : ℕ) (e : LineEditor) (buf more : Bytes) (whole : ℕ)
    → length buf ≤ fuel
    → length (buf ++ more) ≤ whole
    → input_loop whole e (buf ++ more) ≡ continued (input_loop fuel e buf) more
unfolding handle_input
input_loop-append fuel e [] more whole h k =
    rw (input_loop-nil fuel e) (input_loop-fuel whole (length more) e more k (omega arith))
input_loop-append zero e (byte ∷ rest) more whole h k = absurd (omega arith)
input_loop-append (suc fuel) e (byte ∷ rest) more zero h k = absurd (omega arith)
input_loop-append (suc fuel) e (byte ∷ rest) more (suc whole) h k =
    go
      (λ e' left l.
        input_loop-append fuel e' left more whole (omega arith)
          (omega (arith, length-append left more, length-append rest more)))
      (input_round e byte rest) refl (input_round-Stable e byte rest more)
      (input_round-Quiet e byte rest)
  where
    go :
        ((e' : LineEditor) (left : Bytes)
          → length left < length (byte ∷ rest)
          → input_loop whole e' (left ++ more) ≡ continued (input_loop fuel e' left) more)
        → (round : InputRound) → input_round e byte rest ≡ round
        → Stable e (byte ∷ rest) more round (input_round e byte (rest ++ more))
        → Quiet round
        → input_loop (suc whole) e (byte ∷ (rest ++ more))
          ≡ continued (input_loop (suc fuel) e (byte ∷ rest)) more
    go later (waits e') r same q =
        rw (input_loop-waits fuel e byte rest r, same)
          (input_loop-fuel (suc whole) (length (byte ∷ (rest ++ more))) e (byte ∷ (rest ++ more)) k
            (omega arith))
    go later cancels r same q =
        rw (input_loop-cancels fuel e byte rest r)
          (input_loop-cancels whole e byte (rest ++ more) same)
    go later (goes_on e' actions left) r (same, less) q =
        rw (input_loop-goes_on fuel e byte rest r) (
          input_loop-goes_on whole e byte (rest ++ more) same
          ∙ ap (after actions) (later e' left less)
          ∙ sym (continued-after actions (input_loop fuel e' left) more q))

-- Input may come in pieces: what is done and left for the whole is what comes of the first piece and then
-- of what this left with the second piece behind, so that no key, character or escape sequence is lost
-- or read twice where the input is cut; a cancellation ends it.
pub handle_input-append :
    (e : LineEditor) (buf more : Bytes)
    → handle_input e (buf ++ more) ≡ continued (handle_input e buf) more
unfolding handle_input
handle_input-append e buf more =
    input_loop-append (length buf) e buf more (length (buf ++ more)) (omega arith) (omega arith)
