-- ===== src/Format/Sse/Tests.antt =====
-- src/format/sse.rs: a stream with all breaks of lines.
use fetch.Common.{
  if◌then◌else◌, ◌≡◌, refl, ℕ, Bool, true, false, none, some, List, [], ◌∷◌, ◌++◌, ok, err, arith,
}
use fetch.Common.Text.{codes, bytes_eq}
use fetch.Output.{Printer, push_str, write_styled}
use fetch.Format.Sse.{
  EventStreamFormatter, new, utf8_length, len_utf8, ensure_len, strip_bom, trim_end_newlines,
  split_field, strip_space, split_newlines, write_sse_field, write_data_lines, write_event,
  dispatch_event, process_field, process_text, process_line, take_fresh, take_char,
  push_str as push_stream, finish, format_event_stream_to, pending_buffer_too_large, line,
}
use fetch.Format.Sse.Json.{
  Value, scalar, array, object, end, item, last, field, Serde, format_event_data, write_json_inline,
}
use fetch.Format.Sse.Lines.{lines_of, prepend, last_cr, unix}
use fetch.Format.Sse.Feed.{feed_lines, push_str-feed_lines}
use fetch.Format.Sse.Limit.{Within, new-Within, push_str-Within}

-- A library that knows one text.
abbrev pairs : Value
pairs = object (field (codes "a") (array (item (scalar (codes "1")) end)) last)

abbrev serde : Serde
serde = record {
  from_str = λ text. if bytes_eq text (codes "{1}") then some pairs else none;
  string_to_string = λ text. b'"' ∷ (text ++ b'"' ∷ []);
}

abbrev line_feed : List ℕ
line_feed = 0xa ∷ []

abbrev stream : List ℕ
stream =
    codes "event: a"
    ++ 0xd
      ∷ (0xa
          ∷ (codes "data: x"
              ++ 0xd ∷ (codes "data: y" ++ 0xa ∷ (0xd ∷ (codes "data: {1}" ++ line_feed)))))

abbrev shown : List ℕ
shown =
    codes "event: a"
    ++ (line_feed
        ++ (codes "data: x"
            ++ (line_feed
                ++ (codes "data: y"
                    ++ (line_feed
                        ++ (line_feed
                            ++ (codes "event: message"
                                ++ (line_feed
                                    ++ (codes "data: { \"a\": [ 1 ] }"
                                        ++ (line_feed ++ line_feed))))))))))

abbrev plain : Printer
plain = record { buf = []; use_color = false }

all_breaks :
    format_event_stream_to (format_event_data serde) stream plain
    ≡ ok (record { buf = shown; use_color = false })
unfolding format_event_stream_to finish push_stream take_char take_fresh process_line process_text
    process_field dispatch_event write_event write_data_lines write_sse_field split_newlines
    strip_space split_field trim_end_newlines strip_bom ensure_len utf8_length len_utf8 bytes_eq
    push_str write_styled format_event_data write_json_inline
all_breaks = refl

-- The data library of the witnesses knows no text.
abbrev given : List ℕ → Bool → List ℕ
given text color = text

abbrev two_lines : List ℕ
two_lines = codes "data" ++ 0xd ∷ (0xa ∷ codes "id")

push_str-feed_lines_example :
    push_stream given (new (some 9)) two_lines plain
    ≡ feed_lines given
        (new (some 9))
        (prepend [] (lines_of false two_lines))
        (last_cr false two_lines)
        plain
unfolding unix split_newlines utf8_length len_utf8
push_str-feed_lines_example =
    push_str-feed_lines given (new (some 9)) two_lines plain (omega arith, (omega arith, tt))

abbrev started : EventStreamFormatter
started = record {
  event_type = [];
  data_text = 0xa ∷ [];
  line_text = codes "id";
  seen_first_line = true;
  pending_cr = false;
  max_pending_bytes = some 9;
}

two_lines_pushed : push_stream given (new (some 9)) two_lines plain ≡ ok (started, plain)
unfolding push_stream take_char take_fresh process_line process_text process_field dispatch_event
    split_field strip_space strip_bom ensure_len utf8_length len_utf8 bytes_eq
two_lines_pushed = refl

push_str-Within_example : Within (some 9) started
push_str-Within_example =
    push_str-Within given (some 9) (omega arith) (new (some 9)) two_lines plain
      (new-Within (some 9)) two_lines_pushed

too_long : push_stream given (new (some 3)) two_lines plain ≡ err (pending_buffer_too_large line 3)
unfolding push_stream take_char take_fresh ensure_len utf8_length len_utf8
too_long = refl
