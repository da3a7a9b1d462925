-- ===== src/Dns/Wire/Bounds.antt =====
-- src/dns/wire.rs: `read_name` ends, and stays within the packet.
use Prim.Native.Nat.{bit_and}
use fetch.Common.{
  leb→gt, le→ltb, ℕ, zero, suc, ◌+◌, ◌-◌, ◌*◌, ◌≤◌, ◌<◌, ◌≡◌, refl, ◌⊎◌, inl, inr, ◌≢◌, Bool,
  Bool-cases, true, false, Bytes, length, get_or, ◌==◌, if◌then◌else◌, leb, ltb, ltb→le, Result, ok,
  err, ◌>>=◌, arith,
}
use fetch.Common.Words.{u16_from_be_bytes}
use fetch.Dns.Wire.{
  WireError, out_of_fuel, NameReader, NameRound, reads_on, finished, start_at, follow_pointer,
  read_label, name_round, name_loop, read_name, read_u16, read_u32, name_fuel, joined,
}

-- Where the reader stands: `next` is where the name ends if a pointer was followed.
abbrev Placed : ℕ → ℕ → Bool → ℕ → ℕ → Type 0
Placed n offset true pos next = (offset < next) × (next ≤ n)
Placed n offset false pos next = (next ≡ pos) × (offset ≤ pos)

abbrev Sound : ℕ → ℕ → NameReader → Type 0
Sound n offset r = Placed n offset r.jumped r.pos r.next × (r.jumps ≤ 128)

-- A round goes forward in the packet or follows one more pointer.
abbrev Progress : ℕ → NameReader → NameReader → Type 0
Progress n r s = ((s.jumps ≡ r.jumps) × (r.pos < s.pos) × (s.pos ≤ n)) ⊎ (s.jumps ≡ suc r.jumps)

abbrev RoundSound : ℕ → ℕ → NameReader → Result WireError NameRound → Type 0
RoundSound n offset r (err e) = e ≢ out_of_fuel
RoundSound n offset r (ok (finished s)) = (offset < s.next) × (s.next ≤ n)
RoundSound n offset r (ok (reads_on s)) = Sound n offset s × Progress n r s

picked :
    (n offset : ℕ) (jumped : Bool) (pos next new : ℕ)
    → Placed n offset jumped pos next
    → pos < new
    → new ≤ n
    → (offset < (if jumped then next else new)) × ((if jumped then next else new) ≤ n)
picked n offset true pos next new h k l = h
picked n offset false pos next new h k l = (omega arith, l)

moved :
    (n offset : ℕ) (jumped : Bool) (pos next new : ℕ)
    → Placed n offset jumped pos next
    → pos < new
    → Placed n offset jumped new (if jumped then next else new)
moved n offset true pos next new h k = h
moved n offset false pos next new h k = (refl, omega arith)

follow_pointer-Sound :
    (packet : Bytes) (offset len : ℕ) (r : NameReader)
    → Sound (length packet) offset r
    → RoundSound (length packet) offset r (follow_pointer packet r len)
unfolding follow_pointer
follow_pointer-Sound packet offset len r s = elim (Bool-cases (leb (length packet) (r.pos + 1))) [
  | inl short ↦ rw short (λ e. cc)
  | inr inside ↦ rw inside (elim (Bool-cases (ltb 128 (r.jumps + 1))) [
    | inl many ↦ rw many (λ e. cc)
    | inr few ↦ rw few (
      (
        picked (length packet) offset r.jumped r.pos r.next (r.pos + 2) s.0 (omega arith)
            (omega (arith, leb→gt _ _ inside)),
        omega (arith, ltb→le _ _ few),
      ),
      inr (omega arith),
    )
  ])
]

read_label-Sound :
    (packet : Bytes) (offset len : ℕ) (r : NameReader)
    → r.pos < length packet
    → Sound (length packet) offset r
    → RoundSound (length packet) offset r (read_label packet r len)
unfolding read_label
read_label-Sound packet offset len r h s = elim (Bool-cases (len == 0)) [
  | inl end ↦ rw end (
      picked (length packet) offset r.jumped r.pos r.next (r.pos + 1) s.0 (omega arith)
        (omega arith))
  | inr label ↦ rw label (elim (Bool-cases (ltb (length packet) (r.pos + 1 + len))) [
    | inl short ↦ rw short (λ e. cc)
    | inr inside ↦ rw inside (
      (moved (length packet) offset r.jumped r.pos r.next (r.pos + 1 + len) s.0 (omega arith), s.1),
      inl (refl, omega arith, omega (arith, ltb→le _ _ inside)),
    )
  ])
]

name_round-Sound :
    (packet : Bytes) (offset : ℕ) (r : NameReader)
    → Sound (length packet) offset r
    → RoundSound (length packet) offset r (name_round packet r)
unfolding name_round
name_round-Sound packet offset r s =
    let len : ℕ = get_or packet r.pos 0 in
    elim (Bool-cases (leb (length packet) r.pos)) [
      | inl short ↦ rw short (λ e. cc)
      | inr inside ↦ rw inside (elim (Bool-cases (bit_and len 0xc0 == 0xc0)) [
        | inl pointer ↦ rw pointer (follow_pointer-Sound packet offset len r s)
        | inr other ↦ rw other (elim (Bool-cases (bit_and len 0xc0 == 0)) [
          | inl label ↦ rw label (read_label-Sound packet offset len r (leb→gt _ _ inside) s)
          | inr invalid ↦ rw invalid (λ e. cc)
        ])
      ])
    ]

-- The rounds that may still come: some for each pointer that may still be followed, and some for what
-- is left of the packet.
abbrev rounds_left : ℕ → NameReader → ℕ
rounds_left n r = (128 - r.jumps) * suc n + (n - r.pos)

rounds_left-Progress :
    (n : ℕ) (r s : NameReader)
    → r.jumps ≤ 128
    → s.jumps ≤ 128
    → Progress n r s
    → rounds_left n s < rounds_left n r
rounds_left-Progress n r s h k (inl (same, forward, inside)) = rw same (omega arith)
rounds_left-Progress n r s h k (inr more) =
    let e : 128 - r.jumps ≡ suc (128 - s.jumps) = omega arith in rw e (omega arith)

abbrev LoopSound : ℕ → ℕ → Result WireError NameReader → Type 0
LoopSound n offset (err e) = e ≢ out_of_fuel
LoopSound n offset (ok s) = (offset < s.next) × (s.next ≤ n)

name_loop-Sound :
    (fuel : ℕ) (packet : Bytes) (offset : ℕ) (r : NameReader)
    → Sound (length packet) offset r
    → rounds_left (length packet) r < fuel
    → LoopSound (length packet) offset (name_loop fuel packet r)
unfolding name_loop
name_loop-Sound zero packet offset r s f = absurd (omega arith)
name_loop-Sound (suc fuel) packet offset r s f =
    go
      (λ next h p.
        let less = rounds_left-Progress (length packet) r next s.1 h.1 p in
        name_loop-Sound fuel packet offset next h (omega arith))
      (name_round packet r) (name_round-Sound packet offset r s)
  where
    go :
        ((next : NameReader)
          → Sound (length packet) offset next
          → Progress (length packet) r next
          → LoopSound (length packet) offset (name_loop fuel packet next))
        → (round : Result WireError NameRound) → RoundSound (length packet) offset r round
        → LoopSound (length packet) offset (elim round [
          | err e ↦ err e
          | ok (finished done) ↦ ok done
          | ok (reads_on next) ↦ name_loop fuel packet next
        ])
    go later (err e) h = h
    go later (ok (finished done)) h = h
    go later (ok (reads_on next)) (h, p) = later next h p

-- What `read_name` gives.
abbrev pub NameSound : ℕ → ℕ → Result WireError (Bytes × ℕ) → Type 0
NameSound n offset (err e) = e ≢ out_of_fuel
NameSound n offset (ok (name, next)) = (offset < next) × (next ≤ n)

-- Reading a name always ends within the fuel, whatever pointers the packet has: with an error of the
-- source, or with a place behind the first byte of the name and within the packet.
pub read_name-Sound :
    (packet : Bytes) (offset : ℕ) → NameSound (length packet) offset (read_name packet offset)
unfolding read_name
read_name-Sound packet offset = go (name_loop (name_fuel packet) packet (start_at offset)) (
    name_loop-Sound (name_fuel packet) packet offset (start_at offset)
      ((refl, omega arith), omega arith) (omega arith))
  where
    go :
        (r : Result WireError NameReader)
        → LoopSound (length packet) offset r
        → NameSound (length packet) offset (r >>= λ r. ok (joined r.labels, r.next))
    go (err e) h = h
    go (ok r) h = h

pub read_name-ends : (raw : Bytes) (offset : ℕ) → read_name raw offset ≢ err out_of_fuel
read_name-ends raw offset = go (read_name raw offset) (read_name-Sound raw offset)
  where
    go : (r : Result WireError (Bytes × ℕ)) → NameSound (length raw) offset r → r ≢ err out_of_fuel
    go (err e) h = λ q. h (cc)
    go (ok (name, next)) h = λ q. cc

pub read_u16-ends : (raw : Bytes) (offset : ℕ) → read_u16 raw offset ≢ err out_of_fuel
unfolding read_u16
read_u16-ends raw offset = λ q. ground arith

pub read_u32-ends : (raw : Bytes) (offset : ℕ) → read_u32 raw offset ≢ err out_of_fuel
unfolding read_u32
read_u32-ends raw offset = λ q. ground arith

-- A word is there if the message is long enough.
pub read_u16-ok :
    (raw : Bytes) (offset : ℕ) → offset + 2 ≤ length raw → (n : ℕ) × (read_u16 raw offset ≡ ok n)
unfolding read_u16
read_u16-ok raw offset h = (
  u16_from_be_bytes (get_or raw offset 0) (get_or raw (offset + 1) 0),
  rw (le→ltb (length raw) (offset + 2) h) refl,
)
