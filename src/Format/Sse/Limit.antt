-- ===== src/Format/Sse/Limit.antt =====
-- src/format/sse.rs: what the formatter keeps of a stream stays within its limit.
use fetch.Common.{
  ℕ, ◌+◌, ◌≡◌, refl, inl, inr, min, Bool, Bool-cases, true, false, ◌&&◌, Option, List, [], ◌∷◌,
  is_empty, ◌==◌, if◌then◌else◌, >>=-eq-ok, >>-eq-ok, ok_inj, ok,
}
use fetch.Common.Text.{codes, bytes_eq}
use fetch.Output.{Printer}
use fetch.Format.Sse.{
  EventStreamFormatter, event, line, usize_max, utf8_length, len_utf8, ensure_len, new, strip_bom,
  strip_space, split_field, cleared_event, trim_end_newlines, dispatch_event, process_field,
  process_text, process_line, take_fresh, take_char, push_str,
}
use fetch.Format.Sse.Lines.{FitsIn}
use fetch.Format.Sse.Checks.{IsLimit, FitsIn-nil, FitsIn-char, FitsIn-type, FitsIn-data}

-- What a formatter keeps: the pending line, and the type and the data of the event.
pub record Within (limit : Option ℕ) (f : EventStreamFormatter) : Type 0 where
  pub limited : f.max_pending_bytes ≡ limit
  pub line_fits : FitsIn limit f.line_text
  pub data_fits : FitsIn limit f.data_text
  pub type_fits : FitsIn limit f.event_type

module _ (format_event_data : List ℕ → Bool → List ℕ) (limit : Option ℕ)
    (below : IsLimit limit) where
  dispatch_event-Within :
      (f : EventStreamFormatter) (out : Printer)
      → f.max_pending_bytes ≡ limit
      → Within limit (dispatch_event format_event_data f out).0
  unfolding dispatch_event
  dispatch_event-Within f out e =
      let nothing : Within limit (cleared_event f) = record {
        limited = e;
        line_fits = FitsIn-nil limit;
        data_fits = FitsIn-nil limit;
        type_fits = FitsIn-nil limit;
      } in
      elim (Bool-cases (is_empty (trim_end_newlines f.data_text))) [
        | inl a ↦ rw a nothing
        | inr a ↦ rw a nothing
      ]

  process_field-Within :
      (f : EventStreamFormatter) (name value : List ℕ) {next : EventStreamFormatter}
      → Within limit f
      → process_field format_event_data f name value ≡ ok next
      → Within limit next
  unfolding process_field
  process_field-Within f name value w h = elim (Bool-cases (is_empty name)) [
    | inl a ↦ let k = rw a at h in rw (← ok_inj k) w
    | inr a ↦
        let k = rw a at h in
        elim (Bool-cases (bytes_eq name (codes "event"))) [
          | inl b ↦
              let m = rw b at k in
              let (checked, c, last) =
                >>-eq-ok (ensure_len f.max_pending_bytes event 0 (utf8_length value)) _ m in
              rw (← ok_inj last) (record {
                limited = w.limited;
                line_fits = w.line_fits;
                data_fits = w.data_fits;
                type_fits = FitsIn-type limit event value below (rw (← w.limited) c);
              })
          | inr b ↦
              let m = rw b at k in
              elim (Bool-cases (bytes_eq name (codes "data"))) [
                | inl d ↦
                    let n = rw d at m in
                    let (checked, c, last) =
                      >>-eq-ok
                        (ensure_len f.max_pending_bytes event (utf8_length f.data_text)
                          (min (utf8_length value + 1) usize_max))
                        _ n in
                    rw (← ok_inj last) (record {
                      limited = w.limited;
                      line_fits = w.line_fits;
                      data_fits =
                          FitsIn-data limit event f.data_text value below (rw (← w.limited) c);
                      type_fits = w.type_fits;
                    })
                | inr d ↦ let n = rw d at m in rw (← ok_inj n) w
              ]
        ]
  ]

  process_line-Within :
      (f : EventStreamFormatter) (out : Printer) {next : EventStreamFormatter × Printer}
      → Within limit f
      → process_line format_event_data f out ≡ ok next
      → Within limit next.0
  unfolding process_line process_text
  process_line-Within f out w h =
      let text : List ℕ = if f.seen_first_line then f.line_text else strip_bom f.line_text in
      let fresh : EventStreamFormatter = record f { line_text = []; seen_first_line = true } in
      elim (Bool-cases (is_empty text)) [
        | inl a ↦ let k = rw a at h in rw (← ok_inj k) (dispatch_event-Within fresh out w.limited)
        | inr a ↦
            let k = rw a at h in
            let field = split_field text in
            let (g, read, last) =
              >>=-eq-ok (process_field format_event_data fresh field.0 (strip_space field.1)) _ k in
            let started : Within limit fresh = record {
              limited = w.limited;
              line_fits = FitsIn-nil limit;
              data_fits = w.data_fits;
              type_fits = w.type_fits;
            } in
            rw (← ok_inj last)
              (process_field-Within fresh field.0 (strip_space field.1) started read)
      ]

  turned :
      (f : EventStreamFormatter) (after_cr : Bool)
      → Within limit f
      → Within limit (record f { pending_cr = after_cr })
  turned f after_cr w = record {
    limited = w.limited;
    line_fits = w.line_fits;
    data_fits = w.data_fits;
    type_fits = w.type_fits;
  }

  take_fresh-Within :
      (f : EventStreamFormatter) (c : ℕ) (out : Printer) {next : EventStreamFormatter × Printer}
      → Within limit f
      → take_fresh format_event_data f c out ≡ ok next
      → Within limit next.0
  unfolding take_fresh
  take_fresh-Within f c out w h = elim (Bool-cases (c == 0xa)) [
    | inl feed ↦ process_line-Within f out w (rw feed at h)
    | inr other ↦
        let k = rw other at h in
        elim (Bool-cases (c == 0xd)) [
          | inl turn ↦
              let m = rw turn at k in
              let (g, read, last) = >>=-eq-ok (process_line format_event_data f out) _ m in
              rw (← ok_inj last) (turned g.0 true (process_line-Within f out w read))
          | inr char ↦
              let m = rw char at k in
              let (checked, e, last) =
                >>-eq-ok
                  (ensure_len f.max_pending_bytes line (utf8_length f.line_text) (len_utf8 c)) _
                  m in
              rw (← ok_inj last) (record {
                limited = w.limited;
                line_fits = FitsIn-char limit line f.line_text c below (rw (← w.limited) e);
                data_fits = w.data_fits;
                type_fits = w.type_fits;
              })
        ]
  ]

  take_char-Within :
      (f : EventStreamFormatter) (c : ℕ) (out : Printer) {next : EventStreamFormatter × Printer}
      → Within limit f
      → take_char format_event_data f c out ≡ ok next
      → Within limit next.0
  unfolding take_char
  take_char-Within f c out w h = elim (Bool-cases (f.pending_cr && (c == 0xa))) [
    | inl skip ↦ let k = rw skip at h in rw (← ok_inj k) (turned f false w)
    | inr take ↦
        take_fresh-Within (record f { pending_cr = false }) c out (turned f false w) (rw take at h)
  ]

  -- Where the pending line, the event's type and its data are within the limit, they still are after any
  -- text that is taken without an error, so the formatter never keeps more than the limit of each. The
  -- limit is one below the largest length.
  pub push_str-Within :
      (f : EventStreamFormatter) (text : List ℕ) (out : Printer)
      {next : EventStreamFormatter × Printer}
      → Within limit f
      → push_str format_event_data f text out ≡ ok next
      → Within limit next.0
  unfolding push_str
  push_str-Within f [] out w h = rw (← ok_inj h) w
  push_str-Within f (c ∷ text) out w h =
      let (step, first, rest) = >>=-eq-ok (take_char format_event_data f c out) _ h in
      push_str-Within step.0 text step.1 (take_char-Within f c out w first) rest

pub new-Within : (limit : Option ℕ) → Within limit (new limit)
new-Within limit = record {
  limited = refl;
  line_fits = FitsIn-nil limit;
  data_fits = FitsIn-nil limit;
  type_fits = FitsIn-nil limit;
}
