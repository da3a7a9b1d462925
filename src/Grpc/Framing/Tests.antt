-- ===== src/Grpc/Framing/Tests.antt =====
-- src/grpc/framing.rs: runs, and the theorems at concrete messages.
use fetch.Common.{◌≡◌, refl, true, false, some, [], ◌∷◌, ◌++◌, Bytes, take, drop, ok, err, arith}
use fetch.Grpc.Framing.{
  Frame, frame, unframe, push, push_loop, new, read_frames, round_in, settle, header_filled,
  header_done, read_header, start_message, validate_length, compressed_flag, finish, no_message,
  invalid_compressed_flag, incomplete_data, incomplete_header,
}
use fetch.Grpc.Framing.Feed.{IsReady}
use fetch.Grpc.Framing.RoundTrip.{unframe-frame, frame_all, read_frames-frame_all}
use fetch.Grpc.Framing.Stream.{push-append, then_push}

abbrev ping : Frame
ping = record { bytes = b'p' ∷ b'i' ∷ b'n' ∷ b'g' ∷ []; compressed = false }

abbrev packed : Frame
packed = record { bytes = b'z' ∷ []; compressed = true }

abbrev wire : Bytes
wire = 0 ∷ 0 ∷ 0 ∷ 0 ∷ 4 ∷ b'p' ∷ b'i' ∷ b'n' ∷ b'g' ∷ 1 ∷ 0 ∷ 0 ∷ 0 ∷ 1 ∷ b'z' ∷ []

frame_all-wire : frame_all (ping ∷ packed ∷ []) ≡ ok wire
unfolding frame_all frame validate_length
frame_all-wire = refl

read_frames-wire : read_frames wire ≡ some (ok (ping ∷ packed ∷ []))
unfolding read_frames push push_loop round_in settle header_filled header_done read_header
    start_message validate_length compressed_flag finish no_message
read_frames-wire = refl

read_frames_errors :
    (read_frames (2 ∷ 0 ∷ 0 ∷ 0 ∷ 0 ∷ []) ≡ some (err (invalid_compressed_flag 2)))
    × (read_frames (take 7 wire) ≡ some (err incomplete_data))
    × (read_frames (take 3 wire) ≡ some (err incomplete_header))
unfolding read_frames push push_loop round_in settle header_filled header_done read_header
    start_message validate_length compressed_flag finish no_message
read_frames_errors = (refl, refl, refl)

unframe-frame_example :
    (raw : Bytes) × (frame ping.bytes false ≡ ok raw) × (unframe (raw ++ wire) ≡ ok ping)
unframe-frame_example = unframe-frame ping.bytes wire false (omega arith)

read_frames-frame_all_example : read_frames wire ≡ some (ok (ping ∷ packed ∷ []))
read_frames-frame_all_example = read_frames-frame_all (ping ∷ packed ∷ []) frame_all-wire

new-IsReady : IsReady new
new-IsReady = record { short = omega arith; unfinished = tt }

push-append_example :
    push new (take 7 wire ++ drop 7 wire) ≡ then_push (drop 7 wire) (push new (take 7 wire))
push-append_example = push-append new (take 7 wire) (drop 7 wire) new-IsReady
