-- ===== src/Format/Sse/Feed.antt =====
-- src/format/sse.rs: the characters of a stream against its lines, however these end, as the formatter takes them.
use fetch.Common.{
  >>=_assoc, ℕ, ◌≡◌, refl, ap, ◌∙◌, inl, inr, Bool, Bool-cases, true, false, List, [], ◌∷◌, ◌++◌,
  append-nil, ◌==◌, ==→eq, Result, Result-cases, ok, ◌>>=◌,
}
use fetch.Output.{Printer}
use fetch.Common.Text.{&&-false}
use fetch.Format.Sse.{
  line, EventStreamError, EventStreamFormatter, split_newlines, process_line, take_fresh, take_char,
  push_str,
}
use fetch.Format.Sse.Lines.{
  last_cr, lines_of, prepend, prepend-cons_first, prepend_nothing, unix, Fit, ensure_len-Fit,
  split_newlines-cons, lines_of-feed, lines_of-turn, lines_of-char,
}
use fetch.Format.Sse.Kept.{Kept, process_line-Kept}

module _ (format_event_data : List ℕ → Bool → List ℕ) where
  -- Each line is processed, and the last one is left pending.
  pub feed_lines :
      EventStreamFormatter
      → List (List ℕ)
      → Bool
      → Printer
      → Result EventStreamError (EventStreamFormatter × Printer)
  feed_lines f [] after_cr out = ok (record f { pending_cr = after_cr }, out)
  feed_lines f (last ∷ []) after_cr out =
      ok (record f { line_text = last; pending_cr = after_cr }, out)
  feed_lines f (text ∷ (next ∷ others)) after_cr out =
      process_line format_event_data (record f { line_text = text; pending_cr = false }) out
      >>= λ step. feed_lines step.0 (next ∷ others) after_cr step.1

  -- The pending text is only that of the first line.
  feed_lines-prepend :
      (f : EventStreamFormatter) (text pending : List ℕ) (lines : List (List ℕ)) (after_cr : Bool)
      (out : Printer)
      → feed_lines (record f { line_text = text }) (prepend pending lines) after_cr out
        ≡ feed_lines f (prepend pending lines) after_cr out
  unfolding feed_lines
  feed_lines-prepend f text pending [] after_cr out = refl
  feed_lines-prepend f text pending (first ∷ []) after_cr out = refl
  feed_lines-prepend f text pending (first ∷ (second ∷ others)) after_cr out = refl

  -- Behind a break, if the rest of the text is processed line by line.
  abbrev Resumes : Bool → List ℕ → Type 0
  Resumes after_cr text =
      (f : EventStreamFormatter) (out : Printer)
      → Fit f.max_pending_bytes (prepend f.line_text (lines_of after_cr text))
      → push_str format_event_data (record f { pending_cr = after_cr }) text out
        ≡ feed_lines f (prepend f.line_text (lines_of after_cr text)) (last_cr after_cr text) out

  resumed :
      (after_cr : Bool) (text : List ℕ) (f next : EventStreamFormatter) (out : Printer)
      → Resumes after_cr text
      → Kept format_event_data f next
      → Fit f.max_pending_bytes (lines_of after_cr text)
      → push_str format_event_data (record next { pending_cr = after_cr }) text out
        ≡ feed_lines next (lines_of after_cr text) (last_cr after_cr text) out
  resumed after_cr text f next out later (empty, same, limit) fit =
      let whole =
        prepend_nothing (lines_of after_cr text) (split_newlines-cons (unix after_cr text)) in
      let start : prepend next.line_text (lines_of after_cr text) ≡ lines_of after_cr text =
        ap (λ (t : List ℕ). prepend t (lines_of after_cr text)) empty ∙ whole in
      rw start at (later next out (rw (start, limit) fit))

  -- A line break in front of the rest of the text, however this is gone on with.
  break_first :
      (after_cr : Bool) (text : List ℕ) (f : EventStreamFormatter) (out : Printer)
      (rest : EventStreamFormatter × Printer
        → Result EventStreamError (EventStreamFormatter × Printer))
      → ((next : EventStreamFormatter × Printer)
          → next.0.pending_cr ≡ false
          → rest next
            ≡ push_str format_event_data (record next.0 { pending_cr = after_cr }) text next.1)
      → Resumes after_cr text
      → Fit f.max_pending_bytes ((f.line_text ++ []) ∷ lines_of after_cr text)
      → (process_line format_event_data (record f { pending_cr = false }) out >>= rest)
        ≡ feed_lines f ((f.line_text ++ []) ∷ lines_of after_cr text) (last_cr after_cr text) out
  unfolding feed_lines
  break_first after_cr text f out rest same later (first, fit) =
      let fresh = record f { pending_cr = false } in
      let (first_line, others, shape) = split_newlines-cons (unix after_cr text) in
      elim (Result-cases (process_line format_event_data fresh out)) [
        | inr (failure, e) ↦ rw (shape, append-nil f.line_text, e) refl
        | inl (next, e) ↦
            let kept = process_line-Kept format_event_data fresh out e in
            let fed = same next kept.1 ∙ resumed after_cr text fresh next.0 next.1 later kept fit in
            rw (shape, append-nil f.line_text, e)
              (fed
                ∙ ap (λ (t : List (List ℕ)). feed_lines next.0 t (last_cr after_cr text) next.1)
                    shape)
      ]

  feed_first :
      (after_cr : Bool) (c : ℕ) (text : List ℕ) (f : EventStreamFormatter) (out : Printer)
      → (c == 0xa) ≡ true
      → Resumes false text
      → Fit f.max_pending_bytes (prepend f.line_text (lines_of after_cr (c ∷ text)))
      → (take_char format_event_data (record f { pending_cr = after_cr }) c out >>= λ next.
          push_str format_event_data next.0 text next.1)
        ≡ feed_lines f (prepend f.line_text (lines_of after_cr (c ∷ text))) (last_cr false text) out
  unfolding take_char take_fresh
  feed_first true c text f out h later fit =
      let shape = (lines_of-feed c text h).0 in rw (h, shape) (later f out (rw shape at fit))
  feed_first false c text f out h later fit =
      let shape = (lines_of-feed c text h).1 in
      rw (h, shape)
        (break_first false text f out (λ next. push_str format_event_data next.0 text next.1)
          (λ next e.
            ap
              (λ (b : Bool).
                push_str format_event_data (record next.0 { pending_cr = b }) text next.1)
              e)
          later (rw shape at fit))

  turn_first :
      (after_cr : Bool) (c : ℕ) (text : List ℕ) (f : EventStreamFormatter) (out : Printer)
      → (c == 0xa) ≡ false
      → (c == 0xd) ≡ true
      → Resumes true text
      → Fit f.max_pending_bytes (prepend f.line_text (lines_of after_cr (c ∷ text)))
      → (take_char format_event_data (record f { pending_cr = after_cr }) c out >>= λ next.
          push_str format_event_data next.0 text next.1)
        ≡ feed_lines f (prepend f.line_text (lines_of after_cr (c ∷ text))) (last_cr true text) out
  unfolding take_char take_fresh
  turn_first after_cr c text f out h k later fit =
      let shape = lines_of-turn after_cr c text h k in
      rw (h, &&-false after_cr, k, shape)
        (>>=_assoc (process_line format_event_data (record f { pending_cr = false }) out)
            (λ next. ok (record next.0 { pending_cr = true }, next.1))
            (λ next. push_str format_event_data next.0 text next.1)
          ∙ break_first true text f out
              (λ next. push_str format_event_data (record next.0 { pending_cr = true }) text next.1)
              (λ next e. refl) later (rw shape at fit))

  char_first :
      (after_cr : Bool) (c : ℕ) (text : List ℕ) (f : EventStreamFormatter) (out : Printer)
      → (c == 0xa) ≡ false
      → (c == 0xd) ≡ false
      → Resumes false text
      → Fit f.max_pending_bytes (prepend f.line_text (lines_of after_cr (c ∷ text)))
      → (take_char format_event_data (record f { pending_cr = after_cr }) c out >>= λ next.
          push_str format_event_data next.0 text next.1)
        ≡ feed_lines f (prepend f.line_text (lines_of after_cr (c ∷ text))) (last_cr false text) out
  unfolding take_char take_fresh
  char_first after_cr c text f out h k later fit =
      let lines = lines_of false text in
      let shape : prepend f.line_text (lines_of after_cr (c ∷ text))
          ≡ prepend (f.line_text ++ c ∷ []) lines =
        ap (prepend f.line_text) (lines_of-char after_cr c text h k)
        ∙ prepend-cons_first f.line_text c lines in
      let fit' = rw shape at fit in
      let longer = record f { line_text = f.line_text ++ c ∷ [] } in
      rw
        (
          h,
          &&-false after_cr,
          k,
          shape,
          ensure_len-Fit f.max_pending_bytes line f.line_text c lines fit',
        )
        (later longer out fit'
          ∙ feed_lines-prepend f (f.line_text ++ c ∷ []) (f.line_text ++ c ∷ []) lines
              (last_cr false text) out)

  nothing_left :
      (after_cr : Bool) (f : EventStreamFormatter) (out : Printer)
      → ok (record f { pending_cr = after_cr }, out)
        ≡ feed_lines f (prepend f.line_text (lines_of after_cr [])) after_cr out
  unfolding unix split_newlines feed_lines
  nothing_left after_cr f out = rw (append-nil f.line_text) refl

  push_from : (after_cr : Bool) (text : List ℕ) → Resumes after_cr text
  unfolding push_str last_cr
  push_from after_cr [] f out fit = nothing_left after_cr f out
  push_from after_cr (c ∷ text) f out fit = elim (Bool-cases (c == 0xa)) [
    | inl feed ↦
        let e : (c == 0xd) ≡ false = rw (==→eq c 0xa feed) refl in
        rw e (feed_first after_cr c text f out feed (push_from false text) fit)
    | inr other ↦ elim (Bool-cases (c == 0xd)) [
      | inl turn ↦ rw turn (turn_first after_cr c text f out other turn (push_from true text) fit)
      | inr char ↦ rw char (char_first after_cr c text f out other char (push_from false text) fit)
    ]
  ]

  -- A stream whose lines are within the limit is processed line by line, whatever breaks these have,
  -- also mixed ones, and wherever the text was cut before: a carriage return is kept in mind for a line
  -- feed that follows it.
  pub push_str-feed_lines :
      (f : EventStreamFormatter) (text : List ℕ) (out : Printer)
      → Fit f.max_pending_bytes (prepend f.line_text (lines_of f.pending_cr text))
      → push_str format_event_data f text out
        ≡ feed_lines f
            (prepend f.line_text (lines_of f.pending_cr text))
            (last_cr f.pending_cr text)
            out
  push_str-feed_lines f text out fit = push_from f.pending_cr text f out fit
