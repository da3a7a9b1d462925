-- ===== src/Session/Names.antt =====
-- src/session.rs: a valid session name is one component of a path.
use fetch.Common.{
  ℕ, ◌<◌, ◌≡◌, refl, ◌↔◌, Bool, Bool-cases, true, false, not, ◌||◌, [], ◌∷◌, Bytes, length, ◌==◌,
  ==→eq, eq→==, inl, inr, arith,
}
use fetch.Common.Bits.{holds_below, holds_below-test}
use fetch.Common.Text.{codes, &&-both}
use fetch.Session.{is_name_byte, all_name_bytes, is_valid_name}

unfoldable pub has_byte : ℕ → Bytes → Bool
has_byte byte [] = false
has_byte byte (c ∷ name) = (c == byte) || has_byte byte name

-- The bytes of a name.
abbrev pub alphabet : Bytes
alphabet = codes "ABCDEFGHIJKLMNOPQRSTUVWXYZabcdefghijklmnopqrstuvwxyz0123456789_-"

abbrev Named : Bytes → Type 0
Named name = (byte : ℕ) → has_byte byte name ≡ true → has_byte byte alphabet ≡ true

alphabet_table : holds_below 123 (λ byte. not (is_name_byte byte) || has_byte byte alphabet) ≡ true
unfolding holds_below is_name_byte has_byte
alphabet_table = refl

name_below : (byte : ℕ) → is_name_byte byte ≡ true → byte < 123
unfolding is_name_byte
name_below byte h = ground arith

implied : (a b : Bool) → not a || b ≡ true → a ≡ true → b ≡ true
implied true b h k = h
implied false b h k = cc

is_name_byte-has_byte : (byte : ℕ) → is_name_byte byte ≡ true → has_byte byte alphabet ≡ true
is_name_byte-has_byte byte h =
    implied (is_name_byte byte) (has_byte byte alphabet)
      (holds_below-test 123 byte (λ byte. not (is_name_byte byte) || has_byte byte alphabet)
        alphabet_table (name_below byte h))
      h

-- Each byte of a text of bytes of names is one.
has_byte-is_name_byte :
    (byte : ℕ) (name : Bytes)
    → all_name_bytes name ≡ true
    → has_byte byte name ≡ true
    → is_name_byte byte ≡ true
unfolding all_name_bytes has_byte
has_byte-is_name_byte byte [] h k = cc
has_byte-is_name_byte byte (c ∷ name) h k =
    let (valid, more) = &&-both (is_name_byte c) (all_name_bytes name) h in
    elim (Bool-cases (c == byte)) [
      | inl e ↦ let p : c ≡ byte = ==→eq c byte e in rw p at valid
      | inr e ↦ has_byte-is_name_byte byte name more (rw e at k)
    ]

all_name_bytes-Named : (name : Bytes) → all_name_bytes name ≡ true → Named name
all_name_bytes-Named name h byte k =
    is_name_byte-has_byte byte (has_byte-is_name_byte byte name h k)

alphabet-valid : all_name_bytes alphabet ≡ true
unfolding all_name_bytes is_name_byte
alphabet-valid = refl

has_byte_head : (c : ℕ) (name : Bytes) → has_byte c (c ∷ name) ≡ true
unfolding has_byte
has_byte_head c name = rw (eq→== c c refl) refl

has_byte_behind :
    (byte c : ℕ) (name : Bytes) → has_byte byte name ≡ true → has_byte byte (c ∷ name) ≡ true
unfolding has_byte
has_byte_behind byte c name h = rw h (either (c == byte))
  where
    either : (b : Bool) → b || true ≡ true
    either true = refl
    either false = refl

Named-all_name_bytes : (name : Bytes) → Named name → all_name_bytes name ≡ true
unfolding all_name_bytes has_byte
Named-all_name_bytes [] h = refl
Named-all_name_bytes (c ∷ name) h =
    let first : is_name_byte c ≡ true =
      has_byte-is_name_byte c alphabet alphabet-valid (h c (has_byte_head c name)) in
    let rest : all_name_bytes name ≡ true =
      Named-all_name_bytes name (λ byte k. h byte (has_byte_behind byte c name k)) in
    rw (first, rest) refl

-- A name is valid exactly if it is not empty and each byte that it has is a letter or a digit of ASCII, an
-- underscore or a hyphen: so it has no separator of a path, no dot and no zero.
pub is_valid_name-has_byte :
    (name : Bytes)
    → (is_valid_name name ≡ true) ↔ (
        (0 < length name)
        × ((byte : ℕ) → has_byte byte name ≡ true → has_byte byte alphabet ≡ true))
unfolding is_valid_name
is_valid_name-has_byte [] = (λ h. cc, λ h. absurd (omega (arith, h.0)))
is_valid_name-has_byte (c ∷ name) = (
  λ h. (omega arith, all_name_bytes-Named (c ∷ name) h),
  λ h. Named-all_name_bytes (c ∷ name) h.1,
)
