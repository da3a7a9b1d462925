-- ===== src/Format/Sse.antt =====
-- src/format/sse.rs: event streams. A text is the list of its code points; lengths are those of its
-- UTF-8. The JSON library is a parameter: what it parses, and how it writes what has no parts.
pub mod Json
pub mod Lines
mod Kept
pub mod Feed
mod Checks
pub mod Limit
mod Tests
use fetch.Common.{
  ℕ, zero, suc, ◌+◌, ◌-◌, ◌^◌, min, Bool, true, false, ◌&&◌, Option, none, some, List, [], ◌∷◌,
  ◌++◌, is_empty, ltb, ◌==◌, if◌then◌else◌, Result, ok, err, ◌>>=◌, ◌>>◌,
}
use fetch.Common.Text.{codes, bytes_eq}
use fetch.Output
use fetch.Output.{Printer, bold, cyan}

pub data PendingBufferKind : Type 0 where
  event line : PendingBufferKind

pub data EventStreamError : Type 0 where
  pending_buffer_too_large : PendingBufferKind → ℕ → EventStreamError

pub record EventStreamFormatter : Type 0 where
  pub event_type : List ℕ
  pub data_text : List ℕ
  pub line_text : List ℕ
  pub seen_first_line : Bool
  pub pending_cr : Bool
  pub max_pending_bytes : Option ℕ

abbrev pub new : Option ℕ → EventStreamFormatter
new limit = record {
  event_type = [];
  data_text = [];
  line_text = [];
  seen_first_line = false;
  pending_cr = false;
  max_pending_bytes = limit;
}

-- `char::len_utf8`, and `str::len`
pub len_utf8 : ℕ → ℕ
len_utf8 c = if ltb c 0x80 then 1 else if ltb c 0x800 then 2 else if ltb c 0x10000 then 3 else 4

pub utf8_length : List ℕ → ℕ
unfolding len_utf8
utf8_length [] = 0
utf8_length (c ∷ cs) = len_utf8 c + utf8_length cs

-- `usize::MAX`
abbrev pub usize_max : ℕ
usize_max = 2 ^ 64 - 1

pub ensure_len : Option ℕ → PendingBufferKind → ℕ → ℕ → Result EventStreamError (Unit {0})
ensure_len none kind current_len additional_bytes = ok tt
ensure_len (some max) kind current_len additional_bytes =
    if ltb max (min (current_len + additional_bytes) usize_max)
    then err (pending_buffer_too_large kind max)
    else ok tt

abbrev pub ensure_pending_line_len : EventStreamFormatter → ℕ → Result EventStreamError (Unit {0})
ensure_pending_line_len f additional_bytes =
    ensure_len f.max_pending_bytes line (utf8_length f.line_text) additional_bytes

abbrev pub ensure_pending_event_len :
    EventStreamFormatter → ℕ → ℕ → Result EventStreamError (Unit {0})
ensure_pending_event_len f current_len additional_bytes =
    ensure_len f.max_pending_bytes event current_len additional_bytes

pub strip_bom : List ℕ → List ℕ
strip_bom [] = []
strip_bom (c ∷ cs) = if c == 0xfeff then cs else c ∷ cs

-- `trim_end_matches('\n')`
pub trim_end_newlines : List ℕ → List ℕ
trim_end_newlines [] = []
trim_end_newlines (c ∷ cs) =
    let rest = trim_end_newlines cs in if is_empty rest && (c == 0xa) then [] else c ∷ rest

-- `split_once(':').unwrap_or((line, ""))`
pub split_field : List ℕ → List ℕ × List ℕ
split_field [] = ([], [])
split_field (c ∷ cs) =
    let rest = split_field cs in if c == b':' then ([], cs) else (c ∷ rest.0, rest.1)

-- `strip_prefix(' ').unwrap_or(value)`
pub strip_space : List ℕ → List ℕ
strip_space [] = []
strip_space (c ∷ cs) = if c == b' ' then cs else c ∷ cs

abbrev pub cons_first : ℕ → List (List ℕ) → List (List ℕ)
cons_first c [] = (c ∷ []) ∷ []
cons_first c (first ∷ others) = (c ∷ first) ∷ others

-- `split('\n')`
pub split_newlines : List ℕ → List (List ℕ)
split_newlines [] = [] ∷ []
split_newlines (c ∷ cs) =
    let rest = split_newlines cs in if c == 0xa then [] ∷ rest else cons_first c rest

pub write_sse_field : Printer → List ℕ → List ℕ → Printer
write_sse_field out name value =
    Output.push_str (Output.push_str (Output.write_styled out name (bold ∷ cyan ∷ [])) (codes ": "))
      value

pub write_data_lines : Printer → List (List ℕ) → Printer
write_data_lines out [] = out
write_data_lines out (first ∷ lines) =
    write_data_lines (Output.push_str (write_sse_field out (codes "data") first) (0xa ∷ [])) lines

abbrev pub cleared_event : EventStreamFormatter → EventStreamFormatter
cleared_event f = record f { event_type = []; data_text = []; line_text = [] }

-- `format_event_data` is given: Json.antt has it.
module _ (format_event_data : List ℕ → Bool → List ℕ) where
  pub write_event : List ℕ → List ℕ → Printer → Printer
  write_event event_type event_data out =
      let shown = if is_empty event_type then codes "message" else event_type in
      let head = Output.push_str (write_sse_field out (codes "event") shown) (0xa ∷ []) in
      let formatted = format_event_data event_data out.use_color in
      Output.push_str (write_data_lines head (split_newlines formatted)) (0xa ∷ [])

  pub dispatch_event : EventStreamFormatter → Printer → EventStreamFormatter × Printer
  dispatch_event f out =
      let event_data = trim_end_newlines f.data_text in
      if is_empty event_data
      then (cleared_event f, out)
      else (cleared_event f, write_event f.event_type event_data out)

  pub process_field :
      EventStreamFormatter → List ℕ → List ℕ → Result EventStreamError EventStreamFormatter
  process_field f name value =
      if is_empty name
      then ok f
      else if bytes_eq name (codes "event")
      then (ensure_pending_event_len f 0 (utf8_length value)
          >> ok (record f { event_type = value }))
      else if bytes_eq name (codes "data")
      then (ensure_pending_event_len f (utf8_length f.data_text)
            (min (utf8_length value + 1) usize_max)
          >> ok (record f { data_text = f.data_text ++ (value ++ 0xa ∷ []) }))
      else ok f

  pub process_text :
      EventStreamFormatter
      → List ℕ
      → Printer
      → Result EventStreamError (EventStreamFormatter × Printer)
  process_text f text out =
      let field = split_field text in
      if is_empty text
      then ok (dispatch_event f out)
      else (process_field f field.0 (strip_space field.1) >>= λ g. ok (g, out))

  pub process_line :
      EventStreamFormatter → Printer → Result EventStreamError (EventStreamFormatter × Printer)
  process_line f out =
      let text = if f.seen_first_line then f.line_text else strip_bom f.line_text in
      process_text (record f { line_text = []; seen_first_line = true }) text out

  -- A character behind the check for a line feed after a carriage return.
  pub take_fresh :
      EventStreamFormatter → ℕ → Printer → Result EventStreamError (EventStreamFormatter × Printer)
  take_fresh f ch out =
      if ch == 0xa
      then process_line f out
      else if ch == 0xd
      then (process_line f out >>= λ next. ok (record next.0 { pending_cr = true }, next.1))
      else (ensure_pending_line_len f (len_utf8 ch)
          >> ok (record f { line_text = f.line_text ++ ch ∷ [] }, out))

  pub take_char :
      EventStreamFormatter → ℕ → Printer → Result EventStreamError (EventStreamFormatter × Printer)
  take_char f ch out =
      let fresh = record f { pending_cr = false } in
      if f.pending_cr && (ch == 0xa) then ok (fresh, out) else take_fresh fresh ch out

  pub push_str :
      EventStreamFormatter
      → List ℕ
      → Printer
      → Result EventStreamError (EventStreamFormatter × Printer)
  push_str f [] out = ok (f, out)
  push_str f (ch ∷ input) out = take_char f ch out >>= λ next. push_str next.0 input next.1

  abbrev dispatched_rest : EventStreamFormatter × Printer → EventStreamFormatter × Printer
  dispatched_rest (f, out) = if is_empty f.data_text then (f, out) else dispatch_event f out

  pub finish :
      EventStreamFormatter → Printer → Result EventStreamError (EventStreamFormatter × Printer)
  finish f out = (if is_empty f.line_text then ok (f, out) else process_line f out) >>= λ next.
      ok (dispatched_rest next)

  -- Of a text that is UTF-8.
  pub format_event_stream_to : List ℕ → Printer → Result EventStreamError Printer
  format_event_stream_to input out = do
    (f, pushed) ← push_str (new none) input out
    (done, printed) ← finish f pushed
    ok printed
