-- ===== src/Dns/Wire/Tests.antt =====
-- src/dns/wire.rs: a query for a.bc, and a packet whose pointer points at itself.
use fetch.Common.{◌≡◌, refl, [], ◌∷◌, ◌++◌, Bytes, ok, err, arith}
use fetch.Common.Utf8.{is_utf8, from_utf8_lossy, lossy, lead}
use fetch.Dns.Wire.{
  read_name, name_loop, name_round, follow_pointer, read_label, write_name, write_labels,
  trim_end_dots, split_dots, build_query, write_opt_record, query_header, pointer_loop,
}
use fetch.Dns.Wire.Encoding.{absolute}
use fetch.Dns.Wire.Names.{read_name-write_name}
use fetch.Dns.Wire.Bounds.{NameSound, read_name-Sound}
use fetch.Dns.Wire.Query.{Asks, build_query-Asks}

abbrev host : Bytes
host = b'a' ∷ b'.' ∷ b'b' ∷ b'c' ∷ b'.' ∷ []

abbrev host_written : Bytes
host_written = 1 ∷ b'a' ∷ 2 ∷ b'b' ∷ b'c' ∷ 0 ∷ []

write_name-host : write_name (7 ∷ []) host ≡ ok (7 ∷ host_written)
unfolding write_name write_labels trim_end_dots split_dots
write_name-host = refl

-- A pointer at itself is followed 128 times.
read_name_loop : read_name (0xc0 ∷ 0 ∷ []) 0 ≡ err pointer_loop
unfolding read_name name_loop name_round follow_pointer
read_name_loop = refl

-- A name that ends with a pointer back to an earlier one.
read_name_pointer :
    read_name (1 ∷ b'c' ∷ 0 ∷ 1 ∷ b'b' ∷ 0xc0 ∷ 0 ∷ 9 ∷ []) 3
    ≡ ok (b'b' ∷ b'.' ∷ b'c' ∷ b'.' ∷ [], 7)
unfolding read_name name_loop name_round follow_pointer read_label from_utf8_lossy lossy lead
read_name_pointer = refl

read_name-write_name_example : read_name ((7 ∷ host_written) ++ 9 ∷ []) 1 ≡ ok (absolute host, 7)
unfolding is_utf8
read_name-write_name_example = read_name-write_name (7 ∷ []) host (9 ∷ []) refl write_name-host

read_name-Sound_example : NameSound 2 0 (read_name (0xc0 ∷ 0 ∷ []) 0)
read_name-Sound_example = read_name-Sound (0xc0 ∷ 0 ∷ []) 0

abbrev query : Bytes
query =
    (query_header 0x1234 ++ host_written)
    ++ (0 ∷ 28 ∷ 0 ∷ 1 ∷ 0 ∷ 0 ∷ 41 ∷ 4 ∷ 208 ∷ 0 ∷ 0 ∷ 0 ∷ 0 ∷ 0 ∷ 0 ∷ [])

build_query-host : build_query 0x1234 host 28 ≡ ok query
unfolding build_query write_opt_record write_name write_labels trim_end_dots split_dots
build_query-host = refl

build_query-Asks_example : Asks 0x1234 host 28 query
unfolding is_utf8
build_query-Asks_example =
    build_query-Asks 0x1234 host 28 (omega arith) (omega arith) refl build_query-host
