-- ===== src/Grpc/Framing.antt =====
-- src/grpc/framing.rs: length-prefixed gRPC messages and the incremental decoder.
mod Feed
mod Ready
mod Tests
pub mod RoundTrip
pub mod Stream
use fetch.Common.{
  ℕ, zero, suc, ◌+◌, ◌-◌, ◌*◌, min, Bool, true, false, Option, none, some, List, [], ◌∷◌, ◌++◌,
  Bytes, length, take, drop, get_or, replicate, set, ltb, ◌==◌, if◌then◌else◌, Result, ok, err,
  ◌>>=◌, ◌>>◌,
}
use mathlib.Core.Option
use fetch.Common.Words.{u32_to_be_bytes, u32_from_be_bytes}

abbrev pub max_message_size : ℕ
max_message_size = 64 * 1024 * 1024

abbrev pub frame_header_len : ℕ
frame_header_len = 5

pub record Frame : Type 0 where
  pub bytes : Bytes
  pub compressed : Bool

-- The errors that the source tells apart by their text.
pub data FrameError : Type 0 where
  message_too_large : ℕ → FrameError
  insufficient_header insufficient_message incomplete_header incomplete_data : FrameError
  invalid_compressed_flag : ℕ → FrameError

pub validate_length : ℕ → Result FrameError (Unit {0})
validate_length n = if ltb max_message_size n then err (message_too_large n) else ok tt

pub compressed_flag : ℕ → Result FrameError Bool
compressed_flag byte =
    if byte == 0
    then ok false
    else if byte == 1
    then ok true
    else err (invalid_compressed_flag byte)

abbrev pub flag_byte : Bool → ℕ
flag_byte true = 1
flag_byte false = 0

pub frame : Bytes → Bool → Result FrameError Bytes
frame content compressed = do
  validate_length (length content)
  ok (flag_byte compressed ∷ (u32_to_be_bytes (length content) ++ content))

-- `u32::from_be_bytes` of the four bytes behind the flag.
abbrev pub header_length : Bytes → ℕ
header_length h = u32_from_be_bytes (get_or h 1 0) (get_or h 2 0) (get_or h 3 0) (get_or h 4 0)

pub unframe : Bytes → Result FrameError Frame
unframe raw =
    let n = header_length raw in
    let body =
      if ltb (length raw) (5 + n) then err insufficient_message else ok (take n (drop 5 raw)) in
    if ltb (length raw) frame_header_len then err insufficient_header else do
      compressed ← compressed_flag (get_or raw 0 0)
      validate_length n
      bytes ← body
      ok (record { bytes = bytes; compressed = compressed })

pub record PartialFrame : Type 0 where
  pub bytes : Bytes
  pub len : ℕ
  pub compressed : Bool

pub record FrameDecoder : Type 0 where
  pub header : Bytes
  pub header_len : ℕ
  pub current : Option PartialFrame

abbrev pub new : FrameDecoder
new = record { header = replicate 5 0; header_len = 0; current = none }

-- What a call of `push` leaves: the decoder, and the frames or the error.
abbrev pub Pushed : Type 0
Pushed = FrameDecoder × Result FrameError (List Frame)

-- What follows a header whose flag and length are accepted.
pub start_message : FrameDecoder → Bool → ℕ → FrameDecoder × List Frame
start_message d compressed n =
    if n == 0
    then (record d { header_len = 0 }, record { bytes = []; compressed = compressed } ∷ [])
    else (
      record d {
        header_len = 0;
        current = some (record { bytes = []; len = n; compressed = compressed });
      },
      [],
    )

-- A full header: the flag and the length are checked, and then the message begins.
pub read_header : FrameDecoder → Result FrameError (FrameDecoder × List Frame)
read_header d = do
  compressed ← compressed_flag (get_or d.header 0 0)
  validate_length (header_length d.header)
  ok (start_message d compressed (header_length d.header))

-- `Some(partial)` once more, unless it is complete.
pub settle : FrameDecoder → PartialFrame → FrameDecoder × List Frame
settle d p =
    if length p.bytes == p.len
    then (record d { current = none }, record { bytes = p.bytes; compressed = p.compressed } ∷ [])
    else (record d { current = some p }, [])

-- `target[at..at + source.len()].copy_from_slice(source)`
abbrev pub copy_from_slice : Bytes → ℕ → Bytes → Bytes
copy_from_slice target at [] = target
copy_from_slice target at (c ∷ cs) = copy_from_slice (set target at c) (suc at) cs

-- One round of the loop: the rest of the chunk, the decoder, and the frames or the error.
pub record Round : Type 0 where
  pub rest : Bytes
  pub decoder : FrameDecoder
  pub result : Result FrameError (List Frame)

abbrev pub accepted : Bytes → FrameDecoder × List Frame → Round
accepted rest (d, frames) = record { rest = rest; decoder = d; result = ok frames }

pub header_done : Bytes → FrameDecoder → Result FrameError (FrameDecoder × List Frame) → Round
header_done rest d (ok next) = accepted rest next
header_done rest d (err e) = record { rest = rest; decoder = d; result = err e }

pub header_filled : Bytes → FrameDecoder → Round
header_filled rest d =
    if d.header_len == frame_header_len
    then header_done rest d (read_header d)
    else accepted rest (d, [])

pub round_in : Option PartialFrame → FrameDecoder → Bytes → Round
round_in (some p) d chunk =
    let n = min (p.len - length p.bytes) (length chunk) in
    accepted (drop n chunk) (settle d (record p { bytes = p.bytes ++ take n chunk }))
round_in none d chunk =
    let n = min (frame_header_len - d.header_len) (length chunk) in
    header_filled (drop n chunk) (record d {
      header = copy_from_slice d.header d.header_len (take n chunk);
      header_len = d.header_len + n;
    })

abbrev pub round : FrameDecoder → Bytes → Round
round d chunk = round_in d.current d chunk

-- The loop of `push`; `none` means that the fuel ran out.
pub push_loop : ℕ → FrameDecoder → Bytes → List Frame → Option Pushed
push_loop fuel d [] frames = some (d, ok frames)
push_loop zero d (c ∷ cs) frames = none
push_loop (suc fuel) d (c ∷ cs) frames =
    let r = round d (c ∷ cs) in
    elim r.result [
      | ok more ↦ push_loop fuel r.decoder r.rest (frames ++ more)
      | err e ↦ some (r.decoder, err e)
    ]

-- Each round takes at least one byte, so the length of the chunk is fuel enough.
pub push : FrameDecoder → Bytes → Option Pushed
push d chunk = push_loop (length chunk) d chunk []

pub no_message : Option PartialFrame → Result FrameError (Unit {0})
no_message (some p) = err incomplete_data
no_message none = ok tt

pub finish : FrameDecoder → Result FrameError (Unit {0})
finish d = if ltb 0 d.header_len then err incomplete_header else no_message d.current

abbrev pub finished : Pushed → Result FrameError (List Frame)
finished (d, pushed) = pushed >>= λ frames. finish d >>= λ _. ok frames

pub read_frames : Bytes → Option (Result FrameError (List Frame))
read_frames raw = Option.map finished (push new raw)
