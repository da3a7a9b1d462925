-- ===== src/Grpc/Framing/RoundTrip.antt =====
-- src/grpc/framing.rs: `frame` against `unframe`, and against `read_frames`.
use fetch.Common.{
  ℕ, List, [], none, some, Result, ◌>>=◌, ◌+◌, ◌-◌, min, append_assoc, append-nil, ◌≤◌, ◌≡◌, refl,
  Bool, true, false, ◌∷◌, ◌++◌, Bytes, length, take-length-append, ◌/◌, ◌%◌, ◌^◌, length-eq-zero,
  >>=-eq-ok, ◌<◌, drop-length-append, length-append, le→ltb, ok, arith,
}
use fetch.Common.Words.{u32_to_be_bytes}
use native.Mathlib.Decide.{dec_lt}
use fetch.Grpc.Framing.Feed.{
  IsReady, settle_done, feed_all-nil, feed_all-message, resume-accepted, feed_all, feed_all-round,
  after_round,
}
use fetch.Grpc.Framing.Ready.{push-feed_all}
use fetch.Grpc.Framing.{
  Frame, FrameError, FrameDecoder, PartialFrame, read_frames, finish, no_message, read_header,
  start_message, header_filled, header_done, round_in, accepted, new, max_message_size, frame,
  unframe, validate_length, compressed_flag, flag_byte, header_length,
}

flag_byte-compressed_flag : (c : Bool) → compressed_flag (flag_byte c) ≡ ok c
unfolding compressed_flag
flag_byte-compressed_flag true = refl
flag_byte-compressed_flag false = refl

-- The bytes of a frame.
abbrev pub framed : Bytes → Bool → Bytes
framed content compressed = flag_byte compressed ∷ (u32_to_be_bytes (length content) ++ content)

header_length-framed :
    (content rest : Bytes) (compressed : Bool)
    → length content ≤ max_message_size
    → header_length (framed content compressed ++ rest) ≡ length content
header_length-framed content rest compressed h = omega arith

validate_length_small : (n : ℕ) → n ≤ max_message_size → validate_length n ≡ ok tt
unfolding validate_length
validate_length_small n h = ground arith

frame-framed :
    (content : Bytes) (compressed : Bool)
    → length content ≤ max_message_size
    → frame content compressed ≡ ok (framed content compressed)
unfolding frame
frame-framed content compressed h = rw (validate_length_small (length content) h)

-- A message within the limit is framed, and unframing gives its bytes and its flag back, whatever
-- bytes follow the frame.
pub unframe-frame :
    (content rest : Bytes) (compressed : Bool)
    → length content ≤ max_message_size
    → (raw : Bytes) × (frame content compressed ≡ ok raw)
      × (unframe (raw ++ rest) ≡ ok (record { bytes = content; compressed = compressed }))
unfolding unframe
unframe-frame content rest compressed h = (
  framed content compressed,
  frame-framed content compressed h,
  rw (
    le→ltb (length (framed content compressed ++ rest)) 5 (omega arith),
    flag_byte-compressed_flag compressed,
    header_length-framed content rest compressed h,
    validate_length_small (length content) h,
    le→ltb (length (framed content compressed ++ rest)) (5 + length content)
        (omega (arith, length-append content rest)),
    take-length-append content rest,
  ),
)

-- The source's `frame` over a sequence of messages.
unfoldable pub frame_all : List Frame → Result FrameError Bytes
frame_all [] = ok []
frame_all (f ∷ fs) = do raw ← frame f.bytes f.compressed; more ← frame_all fs; ok (raw ++ more)

-- A decoder between two messages.
abbrev idle : Bytes → FrameDecoder
idle h = record { header = h; header_len = 0; current = none }

-- A header that comes whole.
round_header :
    (a b c d e b0 b1 b2 b3 b4 : ℕ) (rest : Bytes)
    → round_in none (idle (a ∷ b ∷ c ∷ d ∷ e ∷ [])) (b0 ∷ b1 ∷ b2 ∷ b3 ∷ b4 ∷ rest)
      ≡ header_filled rest
          (record { header = b0 ∷ b1 ∷ b2 ∷ b3 ∷ b4 ∷ []; header_len = 5; current = none })
unfolding round_in
round_header a b c d e b0 b1 b2 b3 b4 rest =
    let n : min (5 - 0) (length (b0 ∷ b1 ∷ b2 ∷ b3 ∷ b4 ∷ rest)) ≡ 5 = omega arith in rw n

abbrev header_of : Frame → Bytes
header_of f = flag_byte f.compressed ∷ u32_to_be_bytes (length f.bytes)

abbrev full : Frame → FrameDecoder
full f = record { header = header_of f; header_len = 5; current = none }

-- A header that is full.
header_filled-framed :
    (f : Frame) (rest : Bytes)
    → length f.bytes ≤ max_message_size
    → header_filled rest (full f)
      ≡ accepted rest (start_message (full f) f.compressed (length f.bytes))
unfolding header_filled read_header header_done
header_filled-framed f rest h =
    let n : header_length (header_of f) ≡ length f.bytes = omega arith in
    rw (flag_byte-compressed_flag f.compressed, n, validate_length_small (length f.bytes) h)

abbrev started : Frame → PartialFrame
started f = record { bytes = []; len = length f.bytes; compressed = f.compressed }

-- A message that comes whole.
round_message :
    (d : FrameDecoder) (f : Frame) (rest : Bytes)
    → round_in (some (started f)) d (f.bytes ++ rest)
      ≡ accepted rest (record d { current = none }, f ∷ [])
unfolding round_in
round_message d f rest =
    let n : min (length f.bytes - 0) (length (f.bytes ++ rest)) ≡ length f.bytes =
      omega (arith, length-append f.bytes rest) in
    rw (
      n,
      take-length-append f.bytes rest,
      drop-length-append f.bytes rest,
      settle_done d (record (started f) { bytes = f.bytes }) refl,
    )

start_message_pos :
    (d : FrameDecoder) (f : Frame)
    → 0 < length f.bytes
    → start_message d f.compressed (length f.bytes)
      ≡ (record d { header_len = 0; current = some (started f) }, [])
unfolding start_message
start_message_pos d f h = ground arith

start_message_zero :
    (d : FrameDecoder) (f : Frame)
    → d.current ≡ none
    → f.bytes ≡ []
    → start_message d f.compressed (length f.bytes)
      ≡ (record d { header_len = 0; current = none }, f ∷ [])
unfolding start_message
start_message_zero d f n e = ground arith

-- A message that comes whole behind its header.
after_header :
    (f : Frame) (rest : Bytes) (frames : List Frame)
    → length f.bytes ≤ max_message_size
    → after_round (header_filled (f.bytes ++ rest) (full f)) frames
      ≡ feed_all (idle (header_of f)) rest (frames ++ f ∷ [])
after_header f rest frames h =
    rw (header_filled-framed f (f.bytes ++ rest) h) (elim (dec_lt 0 (length f.bytes)) [
      | yes pos ↦ rw (
        start_message_pos (full f) f pos,
        resume-accepted,
        append-nil,
        feed_all-message (idle (header_of f)) (started f) (f.bytes ++ rest) frames pos,
        round_message (idle (header_of f)) f rest,
        resume-accepted,
      )
      | no zero_len ↦
          let e : f.bytes ≡ [] = length-eq-zero f.bytes (omega arith) in
          rw (start_message_zero (full f) f refl e, resume-accepted, e)
    ])

feed_all-framed :
    (a b c d e : ℕ) (f : Frame) (rest : Bytes) (frames : List Frame)
    → length f.bytes ≤ max_message_size
    → feed_all (idle (a ∷ b ∷ c ∷ d ∷ e ∷ [])) (framed f.bytes f.compressed ++ rest) frames
      ≡ feed_all (idle (header_of f)) rest (frames ++ f ∷ [])
feed_all-framed a b c d e f rest frames h =
    rw
      (
        feed_all-round none (idle (a ∷ b ∷ c ∷ d ∷ e ∷ [])) (framed f.bytes f.compressed ++ rest)
            frames (omega arith) tt,
        round_header,
      )
      (after_header f rest frames h)

frame-eq-ok :
    (content : Bytes) (c : Bool) {raw : Bytes}
    → frame content c ≡ ok raw
    → (length content ≤ max_message_size) × (raw ≡ framed content c)
unfolding frame validate_length
frame-eq-ok content c e = ground arith

-- Whatever the decoder's header still holds, it reads back all that `frame` wrote.
feed_all-frame_all :
    (a b c d e : ℕ) (fs frames : List Frame) {raw : Bytes}
    → frame_all fs ≡ ok raw
    → (h : Bytes) × (feed_all (idle (a ∷ b ∷ c ∷ d ∷ e ∷ [])) raw frames
        ≡ (idle h, ok (frames ++ fs)))
unfolding frame_all
feed_all-frame_all a b c d e [] frames {raw} q =
    let r : raw ≡ [] = cc in (a ∷ b ∷ c ∷ d ∷ e ∷ [], rw (r, feed_all-nil, append-nil))
feed_all-frame_all a b c d e (f ∷ fs) frames {raw} q =
    let (x, qx, q1) = >>=-eq-ok (frame f.bytes f.compressed) _ q in
    let (y, qy, q2) = >>=-eq-ok (frame_all fs) _ q1 in
    let (short, ex) = frame-eq-ok f.bytes f.compressed qx in
    let r : raw ≡ framed f.bytes f.compressed ++ y = cc in
    let n : ℕ = length f.bytes in
    let (h, done) =
      feed_all-frame_all (flag_byte f.compressed) (n / 2 ^ 24 % 256) (n / 2 ^ 16 % 256)
        (n / 2 ^ 8 % 256) (n % 256) fs (frames ++ f ∷ []) qy in
    (h, rw (r, feed_all-framed a b c d e f y frames short, done, append_assoc))

new-IsReady : IsReady new
new-IsReady = record { short = omega arith; unfinished = tt }

-- What `frame` writes for a sequence of messages, `read_frames` reads back: the same messages, in
-- order, with their flags.
pub read_frames-frame_all :
    (fs : List Frame) {raw : Bytes} → frame_all fs ≡ ok raw → read_frames raw ≡ some (ok fs)
unfolding read_frames finish no_message
read_frames-frame_all fs {raw} q =
    let (h, done) = feed_all-frame_all 0 0 0 0 0 fs [] q in
    rw (push-feed_all new raw new-IsReady, done)
