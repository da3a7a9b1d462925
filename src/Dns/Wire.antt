-- ===== src/Dns/Wire.antt =====
-- src/dns/wire.rs: names and fixed-width fields of a DNS message, and queries.
pub mod Labels
pub mod Encoding
pub mod Names
pub mod Bounds
pub mod Query
mod Tests
use Prim.Native.Nat.{bit_and}
use fetch.Common.{
  ℕ, zero, suc, ◌+◌, ◌*◌, Bool, true, false, not, ◌&&◌, ◌||◌, Option, none, some, List, [], ◌∷◌,
  ◌++◌, Bytes, length, is_empty, get_or, take, drop, ltb, leb, ◌==◌, if◌then◌else◌, Result, ok, err,
  ◌>>=◌,
}
use fetch.Common.Words.{u16_to_be_bytes, u16_from_be_bytes, u32_to_be_bytes, u32_from_be_bytes}
use fetch.Common.Utf8.{from_utf8_lossy}

-- The errors that the source tells apart by their text. `out_of_fuel` is the model's own.
pub data WireError : Type 0 where
  short_message short_name short_pointer short_label : WireError
  pointer_loop invalid_label : WireError
  invalid_name : Bytes → WireError
  short_response mismatched_id not_a_response unexpected_opcode truncated_response : WireError
  no_such_host : Bytes → WireError
  unexpected_question_count mismatched_question short_resource invalid_cname : WireError
  out_of_fuel : WireError

abbrev pub type_opt : ℕ
type_opt = 41

abbrev pub class_in : ℕ
class_in = 1

abbrev pub edns_udp_payload_size : ℕ
edns_udp_payload_size = 1232

-- `raw.get(offset..offset + 2)`
unfoldable pub read_u16 : Bytes → ℕ → Result WireError ℕ
read_u16 raw offset =
    if ltb (length raw) (offset + 2)
    then err short_message
    else ok (u16_from_be_bytes (get_or raw offset 0) (get_or raw (offset + 1) 0))

unfoldable pub read_u32 : Bytes → ℕ → Result WireError ℕ
read_u32 raw offset =
    if ltb (length raw) (offset + 4)
    then err short_message
    else ok (
        u32_from_be_bytes (get_or raw offset 0) (get_or raw (offset + 1) 0)
          (get_or raw (offset + 2) 0) (get_or raw (offset + 3) 0))

-- `trim_end_matches('.')`
unfoldable pub trim_end_dots : Bytes → Bytes
trim_end_dots [] = []
trim_end_dots (c ∷ cs) =
    let rest = trim_end_dots cs in if is_empty rest && (c == b'.') then [] else c ∷ rest

abbrev pub cons_first : ℕ → List Bytes → List Bytes
cons_first c [] = (c ∷ []) ∷ []
cons_first c (label ∷ labels) = (c ∷ label) ∷ labels

-- `split('.')`
unfoldable pub split_dots : Bytes → List Bytes
split_dots [] = [] ∷ []
split_dots (c ∷ cs) = let rest = split_dots cs in if c == b'.' then [] ∷ rest else cons_first c rest

-- `join(".")`
abbrev pub join_dots : List Bytes → Bytes
join_dots [] = []
join_dots (label ∷ []) = label
join_dots (label ∷ (next ∷ labels)) = label ++ (b'.' ∷ join_dots (next ∷ labels))

unfoldable pub write_labels : Bytes → Bytes → List Bytes → Result WireError Bytes
write_labels host raw [] = ok raw
write_labels host raw (label ∷ labels) =
    let rest = write_labels host (raw ++ (length label ∷ label)) labels in
    if is_empty label || ltb 63 (length label) then err (invalid_name host) else rest

-- What `raw` is afterwards; the callers drop it on an error.
unfoldable pub write_name : Bytes → Bytes → Result WireError Bytes
write_name raw name =
    let host = trim_end_dots name in
    if is_empty host
    then ok (raw ++ 0 ∷ [])
    else (write_labels host raw (split_dots host) >>= λ raw'. ok (raw' ++ 0 ∷ []))

-- The variables of `read_name`.
pub record NameReader : Type 0 where
  pub labels : List Bytes
  pub pos : ℕ
  pub next : ℕ
  pub jumped : Bool
  pub jumps : ℕ

abbrev pub start_at : ℕ → NameReader
start_at offset = record { labels = []; pos = offset; next = offset; jumped = false; jumps = 0 }

-- How a round of the loop ends: `continue` or `break`.
pub data NameRound : Type 0 where
  reads_on : NameReader → NameRound
  finished : NameReader → NameRound

unfoldable pub follow_pointer : Bytes → NameReader → ℕ → Result WireError NameRound
follow_pointer packet r len =
    let pointer = u16_from_be_bytes (bit_and len 0x3f) (get_or packet (r.pos + 1) 0) in
    if leb (length packet) (r.pos + 1)
    then err short_pointer
    else if ltb 128 (r.jumps + 1)
    then err pointer_loop
    else ok (
        reads_on (record r {
          pos = pointer;
          next = if r.jumped then r.next else r.pos + 2;
          jumped = true;
          jumps = r.jumps + 1;
        }))

unfoldable pub read_label : Bytes → NameReader → ℕ → Result WireError NameRound
read_label packet r len =
    let start = r.pos + 1 in
    if len == 0
    then ok (finished (record r { pos = start; next = if r.jumped then r.next else start }))
    else if ltb (length packet) (start + len)
    then err short_label
    else ok (
        reads_on (record r {
          labels = r.labels ++ from_utf8_lossy (take len (drop start packet)) ∷ [];
          pos = start + len;
          next = if r.jumped then r.next else start + len;
        }))

unfoldable pub name_round : Bytes → NameReader → Result WireError NameRound
name_round packet r =
    let len = get_or packet r.pos 0 in
    if leb (length packet) r.pos
    then err short_name
    else if bit_and len 0xc0 == 0xc0
    then follow_pointer packet r len
    else if bit_and len 0xc0 == 0
    then read_label packet r len
    else err invalid_label

unfoldable pub name_loop : ℕ → Bytes → NameReader → Result WireError NameReader
name_loop zero packet r = err out_of_fuel
name_loop (suc fuel) packet r = elim (name_round packet r) [
  | err e ↦ err e
  | ok (finished done) ↦ ok done
  | ok (reads_on next) ↦ name_loop fuel packet next
]

abbrev pub joined : List Bytes → Bytes
joined [] = b'.' ∷ []
joined (label ∷ labels) = join_dots (label ∷ labels) ++ b'.' ∷ []

-- At most 128 pointers are followed, and between two of them no more labels are read than the packet
-- has bytes.
abbrev pub name_fuel : Bytes → ℕ
name_fuel packet = 130 * suc (length packet)

unfoldable pub read_name : Bytes → ℕ → Result WireError (Bytes × ℕ)
read_name packet offset =
    name_loop (name_fuel packet) packet (start_at offset) >>= λ r. ok (joined r.labels, r.next)

abbrev pub opt_record : Bytes
opt_record =
    0
    ∷ (u16_to_be_bytes type_opt
        ++ (u16_to_be_bytes edns_udp_payload_size ++ (u32_to_be_bytes 0 ++ u16_to_be_bytes 0)))

unfoldable pub write_opt_record : Bytes → Bytes
write_opt_record raw = raw ++ opt_record

abbrev pub query_header : ℕ → Bytes
query_header id =
    u16_to_be_bytes id
    ++ (u16_to_be_bytes 0x0100
        ++ (u16_to_be_bytes 1 ++ (u16_to_be_bytes 0 ++ (u16_to_be_bytes 0 ++ u16_to_be_bytes 1))))

unfoldable pub build_query : ℕ → Bytes → ℕ → Result WireError Bytes
build_query id host dns_type = do
  raw ← write_name (query_header id) host
  ok (write_opt_record ((raw ++ u16_to_be_bytes dns_type) ++ u16_to_be_bytes class_in))
