-- ===== src/Duration/Tests.antt =====
-- src/duration.rs: durations written and read.
use fetch.Common.{arith, ◌≡◌, refl, some, none}
use fetch.Common.Text.{codes, bytes_eq}
use fetch.Common.Chars.{trim, is_whitespace}
use fetch.Common.Decimal.{
  take_digits, drop_digits, value_from, to_string, padded, trim_end_zeros, is_ascii_digit,
}
use fetch.Duration.{
  format_go_duration, format_duration_unit, precision, parse_duration_interval, parts_loop,
  behind_sign, parse_duration_part, parse_fraction, strip_char, fraction_loop, duration_unit,
  first_unit, starts_with,
}
use fetch.Duration.RoundTrip.{parse_duration_interval-format_go_duration}

format_millis : format_go_duration 1500000 ≡ codes "1.5ms"
unfolding format_go_duration format_duration_unit precision to_string padded trim_end_zeros bytes_eq
format_millis = refl

parse_parts : parse_duration_interval (codes " +1h2m.5s ") ≡ some 3720500000000
unfolding parse_duration_interval parts_loop behind_sign parse_duration_part parse_fraction
    strip_char fraction_loop duration_unit first_unit starts_with trim is_whitespace take_digits
    drop_digits value_from is_ascii_digit
parse_parts = refl

parse_no_unit : parse_duration_interval (codes "5") ≡ none
unfolding parse_duration_interval parts_loop behind_sign parse_duration_part parse_fraction
    strip_char fraction_loop duration_unit first_unit starts_with trim is_whitespace take_digits
    drop_digits value_from is_ascii_digit
parse_no_unit = refl

parse_duration_interval-format_go_duration_example :
    parse_duration_interval (format_go_duration 61000000500) ≡ some 61000000500
parse_duration_interval-format_go_duration_example =
    parse_duration_interval-format_go_duration 61000000500 (omega arith)
