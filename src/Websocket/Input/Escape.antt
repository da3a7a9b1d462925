-- ===== src/Websocket/Input/Escape.antt =====
-- src/websocket/interactive.rs: escape sequences where more bytes follow.
use fetch.Common.{
  ℕ, zero, suc, ◌+◌, ◌≤◌, ◌≡◌, refl, ap, ◌⊎◌, inl, inr, Bool-cases, ◌&&◌, [], ◌∷◌, ◌++◌, Bytes,
  length, leb, ◌==◌, arith,
}
use fetch.Websocket.Editor.{LineEditor}
use fetch.Websocket.Input.{csi_end, escape_tilde, escape_final, handle_escape}

-- What more bytes make of an escape sequence: one that is incomplete has changed nothing, and any
-- other stays as it is, and lies within the bytes.
abbrev pub Longer : LineEditor → Bytes → ℕ → LineEditor × ℕ → LineEditor × ℕ → Type 0
Longer e buf offset (e', zero) longer = e' ≡ e
Longer e buf offset (e', suc taken) longer =
    (longer ≡ (e', suc taken)) × (suc taken ≤ offset + length buf)

csi_end-append :
    (index : ℕ) (buf more : Bytes)
    → (csi_end index buf ≡ 0)
      ⊎ ((csi_end index (buf ++ more) ≡ csi_end index buf)
          × (csi_end index buf ≤ index + length buf))
unfolding csi_end
csi_end-append index [] more = inl refl
csi_end-append index (byte ∷ rest) more = elim (Bool-cases (leb 0x40 byte && leb byte 0x7e)) [
  | inl final ↦ rw final (inr (refl, omega arith))
  | inr other ↦ rw other (elim (csi_end-append (index + 1) rest more) [
    | inl e ↦ inl e
    | inr (same, within) ↦ inr (same, omega arith)
  ])
]

escape_tilde-Longer :
    (e : LineEditor) (buf more : Bytes)
    → Longer e buf 3 (escape_tilde e buf) (escape_tilde e (buf ++ more))
unfolding escape_tilde
escape_tilde-Longer e [] more = refl
escape_tilde-Longer e (byte ∷ rest) more = elim (Bool-cases (byte == b'~')) [
  | inl a ↦ rw a (refl, omega arith)
  | inr a ↦ rw a (refl, omega arith)
]

csi-Longer :
    (e : LineEditor) (buf more : Bytes)
    → Longer e buf 2 (e, csi_end 2 buf) (e, csi_end 2 (buf ++ more))
csi-Longer e buf more = go (csi_end 2 buf) (csi_end-append 2 buf more)
  where
    go :
        (taken : ℕ)
        → (taken ≡ 0) ⊎ ((csi_end 2 (buf ++ more) ≡ taken) × (taken ≤ 2 + length buf))
        → Longer e buf 2 (e, taken) (e, csi_end 2 (buf ++ more))
    go zero h = refl
    go (suc taken) (inl h) = absurd (omega arith)
    go (suc taken) (inr (same, within)) = (ap (λ (n : ℕ). (e, n)) same, within)

shifted :
    (e : LineEditor) (byte : ℕ) (rest : Bytes) (r longer : LineEditor × ℕ)
    → Longer e rest 3 r longer
    → Longer e (byte ∷ rest) 2 r longer
shifted e byte rest (e', zero) longer h = h
shifted e byte rest (e', suc taken) longer (same, within) = (same, omega arith)

escape_final-Longer :
    (e : LineEditor) (buf more : Bytes)
    → Longer e buf 2 (escape_final e buf) (escape_final e (buf ++ more))
unfolding escape_final
escape_final-Longer e [] more = refl
escape_final-Longer e (byte ∷ rest) more = elim (Bool-cases (byte == b'C')) [
  | inl a ↦ rw a (refl, omega arith)
  | inr a ↦ rw a (elim (Bool-cases (byte == b'D')) [
    | inl b ↦ rw b (refl, omega arith)
    | inr b ↦ rw b (elim (Bool-cases (byte == b'H')) [
      | inl c ↦ rw c (refl, omega arith)
      | inr c ↦ rw c (elim (Bool-cases (byte == b'F')) [
        | inl d ↦ rw d (refl, omega arith)
        | inr d ↦ rw d (elim (Bool-cases (byte == b'3')) [
          | inl f ↦ rw f (
              shifted e byte rest (escape_tilde e rest) (escape_tilde e (rest ++ more))
                (escape_tilde-Longer e rest more))
          | inr f ↦ rw f (csi-Longer e (byte ∷ rest) more)
        ])
      ])
    ])
  ])
]

lengthened :
    (e : LineEditor) (escape byte : ℕ) (rest : Bytes) (r longer : LineEditor × ℕ)
    → Longer e rest 2 r longer
    → Longer e (escape ∷ (byte ∷ rest)) 0 r longer
lengthened e escape byte rest (e', zero) longer h = h
lengthened e escape byte rest (e', suc taken) longer (same, within) = (same, omega arith)

pub handle_escape-Longer :
    (e : LineEditor) (buf more : Bytes)
    → Longer e buf 0 (handle_escape e buf) (handle_escape e (buf ++ more))
unfolding handle_escape
handle_escape-Longer e [] more = refl
handle_escape-Longer e (escape ∷ []) more = refl
handle_escape-Longer e (escape ∷ (byte ∷ rest)) more = elim (Bool-cases (byte == b'[')) [
  | inl a ↦ rw a (
      lengthened e escape byte rest (escape_final e rest) (escape_final e (rest ++ more))
        (escape_final-Longer e rest more))
  | inr a ↦ rw a (refl, omega arith)
]
