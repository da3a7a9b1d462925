-- ===== src/Grpc/Framing/Stream.antt =====
-- src/grpc/framing.rs: `FrameDecoder::push` on a chunk that is cut in two.
use fetch.Common.{
  ◌≡◌, refl, sym, ap, ◌∙◌, Option, none, some, List, [], ◌∷◌, ◌++◌, append_assoc, append-nil, inl,
  inr, Bytes, Result-cases, ok, err,
}
use fetch.Grpc.Framing.{Frame, FrameDecoder, Pushed, push, new}
use fetch.Grpc.Framing.Feed.{IsReady, feed, feed_all, feed_all-nil}
use fetch.Grpc.Framing.Ready.{
  push-feed_all, feed_all_ok, feed_all_err, StaysReady, feed_all-StaysReady,
}

-- The frames collected before do not change what follows.
abbrev prefixed : List Frame → Pushed → Pushed
prefixed frames (d, ok more) = (d, ok (frames ++ more))
prefixed frames (d, err e) = (d, err e)

feed_all_frames :
    (d : FrameDecoder) (cs : Bytes) (frames more : List Frame)
    → feed_all d cs (frames ++ more) ≡ prefixed frames (feed_all d cs more)
unfolding feed_all
feed_all_frames d [] frames more = refl
feed_all_frames d (c ∷ cs) frames more = elim (Result-cases (feed d c).result) [
  | inl (new, r) ↦
      rw (feed_all_ok d c cs (frames ++ more) new r, feed_all_ok d c cs more new r, append_assoc)
        (feed_all_frames (feed d c).decoder cs frames (more ++ new))
  | inr (x, r) ↦ rw (feed_all_err d c cs (frames ++ more) x r, feed_all_err d c cs more x r)
]

abbrev then_feed : Bytes → Pushed → Pushed
then_feed b (d, ok frames) = prefixed frames (feed_all d b [])
then_feed b (d, err e) = (d, err e)

feed_all-append :
    (d : FrameDecoder) (a b : Bytes) (frames : List Frame)
    → feed_all d (a ++ b) frames ≡ then_feed b (feed_all d a frames)
feed_all-append d [] b frames =
    rw feed_all-nil (ap (feed_all d b) (sym (append-nil frames)) ∙ feed_all_frames d b frames [])
feed_all-append d (c ∷ a) b frames = elim (Result-cases (feed d c).result) [
  | inl (new, r) ↦
      rw (feed_all_ok d c (a ++ b) frames new r, feed_all_ok d c a frames new r)
        (feed_all-append (feed d c).decoder a b (frames ++ new))
  | inr (x, r) ↦ rw (feed_all_err d c (a ++ b) frames x r, feed_all_err d c a frames x r)
]

-- A second call of `push` behind a first: its frames follow those of the first, and an error of the
-- first is kept.
abbrev pub prefixed? : List Frame → Option Pushed → Option Pushed
prefixed? frames none = none
prefixed? frames (some (d, ok more)) = some (d, ok (frames ++ more))
prefixed? frames (some (d, err e)) = some (d, err e)

prefixed?-some :
    (frames : List Frame) (p : Pushed) → prefixed? frames (some p) ≡ some (prefixed frames p)
prefixed?-some frames (d, ok more) = refl
prefixed?-some frames (d, err e) = refl

abbrev pub then_push : Bytes → Option Pushed → Option Pushed
then_push b none = none
then_push b (some (d, ok frames)) = prefixed? frames (push d b)
then_push b (some (d, err e)) = some (d, err e)

then_push-then_feed :
    (b : Bytes) (p : Pushed) → StaysReady p → then_push b (some p) ≡ some (then_feed b p)
then_push-then_feed b (d, ok frames) v =
    rw (push-feed_all d b v) (prefixed?-some frames (feed_all d b []))
then_push-then_feed b (d, err e) v = refl

-- On a decoder between two chunks, `push` of a chunk cut anywhere in two is `push` of the one part
-- and then of the other: the same decoder, the same frames in order, the same error.
pub push-append :
    (d : FrameDecoder) (a b : Bytes) → IsReady d → push d (a ++ b) ≡ then_push b (push d a)
push-append d a b v =
    rw (push-feed_all d (a ++ b) v, push-feed_all d a v, feed_all-append)
      (sym (then_push-then_feed b (feed_all d a []) (feed_all-StaysReady d a [] v)))
