-- ===== src/Grpc/Framing/Ready.antt =====
-- src/grpc/framing.rs: the rounds of `FrameDecoder::push` end, and keep the decoder ready.
use fetch.Common.{
  ℕ, zero, suc, ◌-◌, ◌≤◌, ◌<◌, min, ◌≡◌, refl, Bool, true, false, Option, none, some, List, [], ◌∷◌,
  ◌++◌, inl, inr, Bytes, length, take, length-append, length-take, length-drop, Result-cases, ok,
  err, arith,
}
use fetch.Grpc.Framing.{
  Frame, FrameError, header_length, FrameDecoder, PartialFrame, Pushed, Round, start_message,
  read_header, settle, header_done, header_filled, round_in, round, push_loop, push,
  frame_header_len,
}
use fetch.Grpc.Framing.Feed.{
  IsUnfinished, IsReady, feed, feed_all, resume, feed_all-nil, feed_all-round,
}

-- What a round leaves: a decoder that is ready again, and a shorter chunk.
abbrev pub Advances : ℕ → Round → Type 0
Advances n r = IsReady r.decoder × (length r.rest < n)

pub settle-IsReady :
    (d : FrameDecoder) (p : PartialFrame)
    → d.header_len < 5
    → length p.bytes ≤ p.len
    → IsReady (settle d p).0
unfolding settle
settle-IsReady d p h k = ground arith

pub message-Advances :
    (d : FrameDecoder) (p : PartialFrame) (c : ℕ) (cs : Bytes)
    → d.header_len < 5
    → length p.bytes < p.len
    → Advances (suc (length cs)) (round_in (some p) d (c ∷ cs))
unfolding round_in
message-Advances d p c cs h u =
    let n : ℕ = min (p.len - length p.bytes) (suc (length cs)) in
    (
      settle-IsReady d _ h
          (omega (arith, length-append p.bytes (take n (c ∷ cs)), length-take n (c ∷ cs))),
      omega (arith, length-drop n (c ∷ cs)),
    )

pub start_message-IsReady :
    (d : FrameDecoder) (b : Bool) (n : ℕ) → d.current ≡ none → IsReady (start_message d b n).0
unfolding start_message
start_message-IsReady d b n e = ground arith

pub header_filled-IsReady :
    (d : FrameDecoder) (rest : Bytes)
    → d.header_len ≤ 5
    → d.current ≡ none
    → {more : List Frame} → (header_filled rest d).result ≡ ok more
    → IsReady (header_filled rest d).decoder
unfolding header_filled header_done read_header
header_filled-IsReady d rest h e r = ground (
  arith,
  start_message-IsReady d false (header_length d.header) e,
  start_message-IsReady d true (header_length d.header) e,
)

pub header_filled_shorter : (d : FrameDecoder) (rest : Bytes) → (header_filled rest d).rest ≡ rest
unfolding header_filled header_done
header_filled_shorter d rest = ground arith

pub header-Advances :
    (d : FrameDecoder) (c : ℕ) (cs : Bytes)
    → d.header_len < 5
    → d.current ≡ none
    → {more : List Frame} → (round_in none d (c ∷ cs)).result ≡ ok more
    → Advances (suc (length cs)) (round_in none d (c ∷ cs))
unfolding round_in
header-Advances d c cs h e r =
    let n : ℕ = min (frame_header_len - d.header_len) (suc (length cs)) in
    (
      header_filled-IsReady _ _ (omega arith) e r,
      rw header_filled_shorter (omega (arith, length-drop n (c ∷ cs))),
    )

pub round-Advances :
    (o : Option PartialFrame) (d : FrameDecoder) (c : ℕ) (cs : Bytes)
    → d.current ≡ o
    → d.header_len < 5
    → IsUnfinished o
    → {more : List Frame} → (round_in o d (c ∷ cs)).result ≡ ok more
    → Advances (suc (length cs)) (round_in o d (c ∷ cs))
round-Advances none d c cs e h u r = header-Advances d c cs h e r
round-Advances (some p) d c cs e h u r = message-Advances d p c cs h u

-- The loop, with fuel for the chunk, is the decoder that takes one byte at a time.
pub push_loop-feed_all :
    (fuel : ℕ) (d : FrameDecoder) (chunk : Bytes) (frames : List Frame)
    → IsReady d
    → length chunk ≤ fuel
    → push_loop fuel d chunk frames ≡ some (feed_all d chunk frames)
unfolding push_loop resume feed_all
push_loop-feed_all fuel d [] frames v h = rw feed_all-nil
push_loop-feed_all zero d (c ∷ cs) frames v h = absurd (omega arith)
push_loop-feed_all (suc fuel) d (c ∷ cs) frames v h =
    rw (feed_all-round d.current d (c ∷ cs) frames v.short v.unfinished)
      (elim (Result-cases (round_in d.current d (c ∷ cs)).result) [
        | inl (more, e) ↦
            let a = round-Advances d.current d c cs refl v.short v.unfinished e in
            rw (e, push_loop, resume)
              (push_loop-feed_all fuel (round d (c ∷ cs)).decoder (round d (c ∷ cs)).rest
                (frames ++ more) a.0 (omega (arith, a.1)))
        | inr (x, e) ↦ rw (e, push_loop, resume)
      ])

-- `push` on a ready decoder returns, and leaves what one byte after another would leave.
pub push-feed_all :
    (d : FrameDecoder) (chunk : Bytes) → IsReady d → push d chunk ≡ some (feed_all d chunk [])
unfolding push
push-feed_all d chunk v = push_loop-feed_all (length chunk) d chunk [] v (omega arith)

module _ (d : FrameDecoder) (c : ℕ) (cs : Bytes) (frames : List Frame) where
  pub feed_all_ok :
      (more : List Frame)
      → (feed d c).result ≡ ok more
      → feed_all d (c ∷ cs) frames ≡ feed_all (feed d c).decoder cs (frames ++ more)
  unfolding feed_all
  feed_all_ok more r = rw (r, feed_all)

  pub feed_all_err :
      (x : FrameError)
      → (feed d c).result ≡ err x
      → feed_all d (c ∷ cs) frames ≡ ((feed d c).decoder, err x)
  unfolding feed_all
  feed_all_err x r = rw (r, feed_all)

-- As long as no error is met, a ready decoder stays ready.
abbrev pub StaysReady : Pushed → Type 0
StaysReady (d, ok frames) = IsReady d
StaysReady (d, err e) = Unit {0}

pub feed_all-StaysReady :
    (d : FrameDecoder) (cs : Bytes) (frames : List Frame)
    → IsReady d
    → StaysReady (feed_all d cs frames)
feed_all-StaysReady d [] frames v = rw feed_all-nil v
feed_all-StaysReady d (c ∷ cs) frames v = elim (Result-cases (feed d c).result) [
  | inl (more, r) ↦
      let ready = (round-Advances d.current d c [] refl v.short v.unfinished r).0 in
      rw (feed_all_ok d c cs frames more r)
        (feed_all-StaysReady (feed d c).decoder cs (frames ++ more) ready)
  | inr (x, r) ↦ rw (feed_all_err d c cs frames x r) tt
]
