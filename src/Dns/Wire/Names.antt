-- ===== src/Dns/Wire/Names.antt =====
-- src/dns/wire.rs: `write_name` against `read_name`.
use fetch.Common.{
  ℕ, zero, suc, ◌+◌, ◌≤◌, ◌<◌, ◌≡◌, refl, ap, ◌∙◌, sym, true, false, List, [], ◌∷◌, ◌++◌,
  append_assoc, append-nil, Bytes, length, length-append, take-length-append, get_or-append,
  drop-append_suc, ok, arith,
}
use fetch.Common.Bits.{bit_and_high_2}
use fetch.Common.Utf8.{is_utf8, from_utf8_lossy-is_utf8}
use fetch.Dns.Wire.{
  NameReader, reads_on, finished, name_round, read_label, name_loop, read_name, joined, write_name,
  name_fuel,
}
use fetch.Dns.Wire.Encoding.{encoded, Sized, absolute, write_name-Encodes}
use fetch.Dns.Wire.Labels.{AllUtf8}

-- A reader that has followed no pointer.
abbrev direct : List Bytes → ℕ → NameReader
direct labels pos = record { labels = labels; pos = pos; next = pos; jumped = false; jumps = 0 }

name_round-label :
    (before label after : Bytes) (labels : List Bytes)
    → 0 < length label
    → length label ≤ 63
    → is_utf8 label ≡ true
    → name_round (before ++ (length label ∷ (label ++ after))) (direct labels (length before))
      ≡ ok (reads_on (direct (labels ++ label ∷ []) (length before + 1 + length label)))
unfolding name_round read_label
name_round-label before label after labels p s u =
    let n = length-append before (length label ∷ (label ++ after)) in
    let m = length-append label after in
    let b = bit_and_high_2 (length label) (omega arith) in
    rw
      (
        get_or-append before (length label) 0 (label ++ after),
        b,
        drop-append_suc before (length label) (label ++ after),
        take-length-append label after,
        from_utf8_lossy-is_utf8 label u,
      )
      (ground arith)

name_round-end :
    (before after : Bytes) (labels : List Bytes)
    → name_round (before ++ 0 ∷ after) (direct labels (length before))
      ≡ ok (finished (direct labels (length before + 1)))
unfolding name_round read_label
name_round-end before after labels =
    let n = length-append before (0 ∷ after) in
    rw (get_or-append before 0 0 after, bit_and_high_2 0 (omega arith)) (ground arith)

name_loop-reads_on :
    (fuel : ℕ) (packet : Bytes) (r : NameReader) {next : NameReader}
    → name_round packet r ≡ ok (reads_on next)
    → name_loop (suc fuel) packet r ≡ name_loop fuel packet next
unfolding name_loop
name_loop-reads_on fuel packet r e = rw (e, name_loop)

name_loop-finished :
    (fuel : ℕ) (packet : Bytes) (r : NameReader) {done : NameReader}
    → name_round packet r ≡ ok (finished done)
    → name_loop (suc fuel) packet r ≡ ok done
unfolding name_loop
name_loop-finished fuel packet r e = rw (e, name_loop)

-- The labels that follow are read, and the byte that ends them.
name_loop-encoded :
    (labels read : List Bytes) (before after : Bytes) (fuel : ℕ) (packet : Bytes) (pos next : ℕ)
    → Sized labels
    → AllUtf8 labels
    → length labels < fuel
    → packet ≡ before ++ (encoded labels ++ 0 ∷ after)
    → pos ≡ length before
    → next ≡ pos + length (encoded labels) + 1
    → name_loop fuel packet (direct read pos) ≡ ok (direct (read ++ labels) next)
name_loop-encoded labels read before after zero packet pos next s u f e p n = absurd (omega arith)
name_loop-encoded [] read before after (suc fuel) packet pos next s u f e p n =
    let m : next ≡ length before + 1 = omega arith in
    rw (e, p, m, append-nil read)
      (name_loop-finished fuel (before ++ 0 ∷ after) (direct read (length before))
        (name_round-end before after read))
name_loop-encoded (label ∷ labels) read before after (suc fuel) packet pos next (l, h, s) (v, u) f e
      p n =
    let rest : Bytes = encoded labels ++ 0 ∷ after in
    let q : packet ≡ before ++ (length label ∷ (label ++ rest)) =
      e
      ∙ ap (λ (t : Bytes). before ++ (length label ∷ t))
          (append_assoc label (encoded labels) (0 ∷ after)) in
    let m = length-append label (encoded labels) in
    let k = length-append before (length label ∷ label) in
    let later =
      name_loop-encoded labels (read ++ label ∷ []) (before ++ (length label ∷ label)) after fuel
        packet (length before + 1 + length label) next s u (omega arith)
        (q ∙ sym (append_assoc before (length label ∷ label) rest)) (omega arith) (omega arith) in
    rw p (
      name_loop-reads_on fuel packet (direct read (length before))
        (rw q (name_round-label before label rest read l h v))
      ∙ later
      ∙ ap (λ (t : List Bytes). ok (direct t next)) (append_assoc read (label ∷ []) labels))

length-encoded : (labels : List Bytes) → length labels ≤ length (encoded labels)
length-encoded [] = omega arith
length-encoded (label ∷ labels) =
    omega (arith, length-encoded labels, length-append label (encoded labels))

-- Labels that are written anywhere are read back.
read_name-encoded :
    (labels : List Bytes) (before after : Bytes)
    → Sized labels
    → AllUtf8 labels
    → read_name (before ++ (encoded labels ++ 0 ∷ after)) (length before)
      ≡ ok (joined labels, length before + length (encoded labels) + 1)
unfolding read_name
read_name-encoded labels before after s u =
    let packet : Bytes = before ++ (encoded labels ++ 0 ∷ after) in
    let a = length-append before (encoded labels ++ 0 ∷ after) in
    let b = length-append (encoded labels) (0 ∷ after) in
    let c = length-encoded labels in
    rw (
      name_loop-encoded labels [] before after (name_fuel packet) packet (length before)
        (length before + length (encoded labels) + 1) s u (omega arith) refl refl refl)

-- A name that is a text and is written behind other bytes is read back from there, whatever bytes
-- follow: the name without the dots at its end and then with one, and the place behind it.
pub read_name-write_name :
    (raw host after : Bytes) {written : Bytes}
    → is_utf8 host ≡ true
    → write_name raw host ≡ ok written
    → read_name (written ++ after) (length raw) ≡ ok (absolute host, length written)
read_name-write_name raw host after {written} u e =
    let w = write_name-Encodes raw host u e in
    let body : Bytes = encoded w.labels ++ 0 ∷ [] in
    let shape : written ++ after ≡ raw ++ (encoded w.labels ++ 0 ∷ after) =
      ap (λ (t : Bytes). t ++ after) w.appended
      ∙ append_assoc raw body after
      ∙ ap (λ (t : Bytes). raw ++ t) (append_assoc (encoded w.labels) (0 ∷ []) after) in
    let size : length raw + length (encoded w.labels) + 1 ≡ length written = omega (
      arith,
      ap length w.appended,
      length-append raw body,
      length-append (encoded w.labels) (0 ∷ []),
    ) in
    rw (shape, read_name-encoded w.labels raw after w.sized w.valid, w.name, size)
