-- ===== src/Grpc/Framing/Feed.antt =====
-- src/grpc/framing.rs: the rounds of `FrameDecoder::push` against single bytes.
use fetch.Common.{
  ℕ, suc, ◌+◌, ◌-◌, ◌<◌, min, ◌≡◌, refl, false, Option, none, some, List, [], ◌∷◌, ◌++◌,
  append_assoc, append-nil, Bytes, length, set, length-append, ◌==◌, ok, err, arith,
}
use native.Mathlib.Decide.{dec_lt}
use fetch.Grpc.Framing.{
  Frame, FrameDecoder, PartialFrame, Pushed, Round, settle, accepted, header_done, header_filled,
  round_in, round, frame_header_len,
}

-- Between two calls of `push` a header is unfinished, and a message still wants bytes.
abbrev pub IsUnfinished : Option PartialFrame → Type 0
IsUnfinished none = Unit {0}
IsUnfinished (some p) = length p.bytes < p.len

pub record IsReady (d : FrameDecoder) : Type 0 where
  pub short : d.header_len < frame_header_len
  pub unfinished : IsUnfinished d.current

-- One byte at a time.
abbrev pub feed : FrameDecoder → ℕ → Round
feed d c = round d (c ∷ [])

unfoldable pub feed_all : FrameDecoder → Bytes → List Frame → Pushed
feed_all d [] frames = (d, ok frames)
feed_all d (c ∷ cs) frames =
    let r = feed d c in
    elim r.result [ ok more ↦ feed_all r.decoder cs (frames ++ more) | err e ↦ (r.decoder, err e) ]

-- What is left of a chunk behind a round, one byte at a time.
unfoldable pub resume : Round → Bytes → List Frame → Pushed
resume r rest frames = elim r.result [
  | ok more ↦ feed_all r.decoder rest (frames ++ more)
  | err e ↦ (r.decoder, err e)
]

pub feed_all-cons :
    (d : FrameDecoder) (c : ℕ) (cs : Bytes) (frames : List Frame)
    → feed_all d (c ∷ cs) frames ≡ resume (round_in d.current d (c ∷ [])) cs frames
unfolding feed_all resume
feed_all-cons d c cs frames = refl

pub feed_all-nil : (d : FrameDecoder) (frames : List Frame) → feed_all d [] frames ≡ (d, ok frames)
unfolding feed_all
feed_all-nil d frames = refl

pub resume-accepted :
    (d : FrameDecoder) (r rest : Bytes) (more frames : List Frame)
    → resume (accepted r (d, more)) rest frames ≡ feed_all d rest (frames ++ more)
unfolding resume
resume-accepted d r rest more frames = refl

pub settle_more :
    (d : FrameDecoder) (p : PartialFrame)
    → length p.bytes < p.len
    → settle d p ≡ (record d { current = some p }, [])
unfolding settle
settle_more d p h = ground arith

pub settle_done :
    (d : FrameDecoder) (p : PartialFrame)
    → length p.bytes ≡ p.len
    → settle d p
      ≡ (record d { current = none }, record { bytes = p.bytes; compressed = p.compressed } ∷ [])
unfolding settle
settle_done d p h = ground arith

-- An unfinished message takes the bytes of a chunk as it takes them one by one.
module _ (d : FrameDecoder) where
  abbrev pub taking : PartialFrame → ℕ → PartialFrame
  taking p c = record p { bytes = p.bytes ++ c ∷ [] }

  pub message_nil :
      (p : PartialFrame)
      → length p.bytes < p.len
      → round_in (some p) d [] ≡ accepted [] (record d { current = some p }, [])
  unfolding round_in
  message_nil p h =
      let e : min (p.len - length p.bytes) 0 ≡ 0 = omega arith in
      rw (e, append-nil p.bytes, settle_more d p h)

  pub message_more :
      (p : PartialFrame) (c : ℕ) (cs : Bytes)
      → length p.bytes + 1 < p.len
      → round_in (some p) d (c ∷ cs) ≡ round_in (some (taking p c)) d cs
  unfolding round_in
  message_more p c cs h =
      let e : min (p.len - length p.bytes) (suc (length cs))
          ≡ suc (min (p.len - length (p.bytes ++ c ∷ [])) (length cs)) =
        omega (arith, length-append p.bytes (c ∷ [])) in
      rw (e, append_assoc)

  pub message_last :
      (p : PartialFrame) (c : ℕ) (cs : Bytes)
      → length p.bytes + 1 ≡ p.len
      → round_in (some p) d (c ∷ cs)
        ≡ accepted cs (
          record d { current = none },
          record { bytes = p.bytes ++ c ∷ []; compressed = p.compressed } ∷ [],
        )
  unfolding round_in
  message_last p c cs h =
      let e : min (p.len - length p.bytes) (suc (length cs)) ≡ suc 0 = omega arith in
      rw (e, settle_done d (taking p c) (omega (arith, length-append p.bytes (c ∷ []))))

abbrev pub after_round : Round → List Frame → Pushed
after_round r frames = resume r r.rest frames

pub feed_all-message :
    (d : FrameDecoder) (p : PartialFrame) (cs : Bytes) (frames : List Frame)
    → length p.bytes < p.len
    → feed_all (record d { current = some p }) cs frames
      ≡ after_round (round_in (some p) d cs) frames
feed_all-message d p [] frames h = rw (message_nil d p h, resume-accepted, append-nil)
feed_all-message d p (c ∷ cs) frames h = elim (dec_lt (length p.bytes + 1) p.len) [
  | yes more ↦
      let open_d = record d { current = some p } in
      let short : length (p.bytes ++ c ∷ []) < p.len =
        omega (arith, length-append p.bytes (c ∷ [])) in
      rw
        (
          feed_all-cons,
          message_more open_d p c [] more,
          message_nil open_d (taking d p c) short,
          resume-accepted,
          message_more d p c cs more,
          append-nil,
        )
        (feed_all-message d (taking d p c) cs frames short)
  | no last ↦
      let open_d = record d { current = some p } in
      rw (
        feed_all-cons,
        message_last open_d p c [] (omega arith),
        message_last d p c cs (omega arith),
        resume-accepted,
        resume-accepted,
      )
]

-- An unfinished header likewise.
module _ (d : FrameDecoder) where
  abbrev pub storing : ℕ → FrameDecoder
  storing c = record d { header = set d.header d.header_len c; header_len = suc d.header_len }

  pub header_nil : d.header_len < 5 → round_in none d [] ≡ accepted [] (d, [])
  unfolding round_in header_filled
  header_nil h =
      let e : min (5 - d.header_len) 0 ≡ 0 = omega arith in
      let s : d.header_len + 0 ≡ d.header_len = omega arith in
      let t : (d.header_len == 5) ≡ false = ground arith in rw (e, s, t)

  pub header_more :
      (c : ℕ) (cs : Bytes)
      → d.header_len + 1 < 5
      → round_in none d (c ∷ cs) ≡ round_in none (storing c) cs
  unfolding round_in
  header_more c cs h =
      let n : ℕ = min (5 - suc d.header_len) (length cs) in
      let e : min (5 - d.header_len) (suc (length cs)) ≡ suc n = omega arith in
      let s : d.header_len + suc n ≡ suc d.header_len + n = omega arith in rw (e, s)

  pub header_last :
      (c : ℕ) (cs : Bytes)
      → d.header_len + 1 ≡ 5
      → round_in none d (c ∷ cs) ≡ header_filled cs (storing c)
  unfolding round_in
  header_last c cs h =
      let e : min (5 - d.header_len) (suc (length cs)) ≡ suc 0 = omega arith in
      let s : d.header_len + 1 ≡ suc d.header_len = omega arith in rw (e, s)

pub resume-header_filled :
    (d : FrameDecoder) (cs : Bytes) (frames : List Frame)
    → d.header_len ≡ 5
    → resume (header_filled [] d) cs frames ≡ after_round (header_filled cs d) frames
unfolding header_filled resume header_done
resume-header_filled d cs frames h = ground arith

pub feed_all-header :
    (d : FrameDecoder) (cs : Bytes) (frames : List Frame)
    → d.header_len < 5
    → feed_all (record d { current = none }) cs frames
      ≡ after_round (round_in none (record d { current = none }) cs) frames
feed_all-header d [] frames h =
    rw (header_nil (record d { current = none }) h, resume-accepted, append-nil)
feed_all-header d (c ∷ cs) frames h = elim (dec_lt (d.header_len + 1) 5) [
  | yes more ↦
      let idle = record d { current = none } in
      rw
        (
          feed_all-cons,
          header_more idle c [] more,
          header_nil (storing idle c) (omega arith),
          resume-accepted,
          header_more idle c cs more,
          append-nil,
        )
        (feed_all-header (storing idle c) cs frames (omega arith))
  | no last ↦
      let idle = record d { current = none } in
      rw (feed_all-cons, header_last idle c [] (omega arith), header_last idle c cs (omega arith))
        (resume-header_filled (storing idle c) cs frames (omega arith))
]

pub feed_all-round :
    (o : Option PartialFrame) (d : FrameDecoder) (cs : Bytes) (frames : List Frame)
    → d.header_len < 5
    → IsUnfinished o
    → let d' = record d { current = o } in
      feed_all d' cs frames ≡ after_round (round_in o d' cs) frames
feed_all-round none d cs frames h u = feed_all-header d cs frames h
feed_all-round (some p) d cs frames h u =
    feed_all-message (record d { current = some p }) p cs frames u
