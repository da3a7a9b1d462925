-- ===== src/Format/Sse/Kept.antt =====
-- src/format/sse.rs: the characters of a stream against its lines, however these end, as the formatter takes them.
use fetch.Common.{
  >>-eq-ok, ℕ, ◌+◌, ◌≡◌, refl, inl, inr, min, Bool, Bool-cases, true, List, [], is_empty,
  if◌then◌else◌, >>=-eq-ok, ok_inj, ok,
}
use fetch.Output.{Printer}
use fetch.Common.Text.{codes, bytes_eq}
use fetch.Format.Sse.{
  event, usize_max, strip_bom, strip_space, split_field, trim_end_newlines, EventStreamFormatter,
  utf8_length, ensure_len, dispatch_event, process_field, process_text, process_line,
}

module _ (format_event_data : List ℕ → Bool → List ℕ) where
  -- What a line leaves as it is.
  abbrev pub Kept : EventStreamFormatter → EventStreamFormatter → Type 0
  Kept f g =
      (g.line_text ≡ [])
      × (g.pending_cr ≡ f.pending_cr)
      × (g.max_pending_bytes ≡ f.max_pending_bytes)

  process_field-Kept :
      (f : EventStreamFormatter) (name value : List ℕ) {next : EventStreamFormatter}
      → f.line_text ≡ []
      → process_field format_event_data f name value ≡ ok next
      → Kept f next
  unfolding process_field
  process_field-Kept f name value e h = elim (Bool-cases (is_empty name)) [
    | inl a ↦ let k = rw a at h in rw (← ok_inj k) (e, refl, refl)
    | inr a ↦
        let k = rw a at h in
        elim (Bool-cases (bytes_eq name (codes "event"))) [
          | inl b ↦
              let m = rw b at k in
              let (checked, c, last) =
                >>-eq-ok (ensure_len f.max_pending_bytes event 0 (utf8_length value)) _ m in
              rw (← ok_inj last) (e, refl, refl)
          | inr b ↦
              let m = rw b at k in
              elim (Bool-cases (bytes_eq name (codes "data"))) [
                | inl d ↦
                    let n = rw d at m in
                    let (checked, c, last) =
                      >>-eq-ok
                        (ensure_len f.max_pending_bytes event (utf8_length f.data_text)
                          (min (utf8_length value + 1) usize_max))
                        _ n in
                    rw (← ok_inj last) (e, refl, refl)
                | inr d ↦ let n = rw d at m in rw (← ok_inj n) (e, refl, refl)
              ]
        ]
  ]

  dispatch_event-Kept :
      (f : EventStreamFormatter) (out : Printer) → Kept f (dispatch_event format_event_data f out).0
  unfolding dispatch_event
  dispatch_event-Kept f out = elim (Bool-cases (is_empty (trim_end_newlines f.data_text))) [
    | inl a ↦ rw a (refl, refl, refl)
    | inr a ↦ rw a (refl, refl, refl)
  ]

  pub process_line-Kept :
      (f : EventStreamFormatter) (out : Printer) {next : EventStreamFormatter × Printer}
      → process_line format_event_data f out ≡ ok next
      → Kept f next.0
  unfolding process_line process_text
  process_line-Kept f out h =
      let text : List ℕ = if f.seen_first_line then f.line_text else strip_bom f.line_text in
      let fresh = record f { line_text = []; seen_first_line = true } in
      elim (Bool-cases (is_empty text)) [
        | inl a ↦ let k = rw a at h in rw (← ok_inj k) (dispatch_event-Kept fresh out)
        | inr a ↦
            let k = rw a at h in
            let field = split_field text in
            let (g, read, last) =
              >>=-eq-ok (process_field format_event_data fresh field.0 (strip_space field.1)) _ k in
            rw (← ok_inj last) (process_field-Kept fresh field.0 (strip_space field.1) refl read)
      ]
