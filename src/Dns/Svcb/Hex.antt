-- ===== src/Dns/Svcb/Hex.antt =====
-- src/dns/svcb.rs: data in hexadecimal digits.
use Prim.Native.Nat.{bit_and, bit_or}
use fetch.Common.{
  ℕ, ◌*◌, ◌/◌, ◌^◌, ◌<◌, ◌≡◌, refl, inl, inr, Bool, true, false, Option, Option-cases, none, some,
  [], ◌∷◌, Bytes, get_or, ◌==◌, ==→eq,
}
use fetch.Common.Bits.{holds_below, holds_below-test}
use fetch.Dns.Svcb.Ipv6.{hex_letters}
use fetch.Dns.Svcb.Format.{hex_digit, hex_encode, hex_decode}

abbrev pub AllBytes : Bytes → Type 0
AllBytes [] = Unit
AllBytes (byte ∷ raw) = (byte < 256) × AllBytes raw

abbrev pub high_digit : ℕ → ℕ
high_digit byte = get_or hex_letters (byte / 2 ^ 4) 0

abbrev pub low_digit : ℕ → ℕ
low_digit byte = get_or hex_letters (bit_and byte 0x0f) 0

abbrev gives : ℕ → Option ℕ → Option ℕ → Bool
gives byte none lo = false
gives byte (some hi) none = false
gives byte (some hi) (some lo) = bit_or (hi * 2 ^ 4) lo == byte

digits_table :
    holds_below 256 (λ byte. gives byte (hex_digit (high_digit byte)) (hex_digit (low_digit byte)))
    ≡ true
unfolding holds_below hex_digit
digits_table = refl

-- Each byte is read from its two digits.
abbrev Digits : ℕ → Type 0
Digits byte =
    (hi : ℕ) × (lo : ℕ) × (hex_digit (high_digit byte) ≡ some hi)
    × (hex_digit (low_digit byte) ≡ some lo)
    × (bit_or (hi * 2 ^ 4) lo ≡ byte)

byte-Digits : (byte : ℕ) → byte < 256 → Digits byte
byte-Digits byte h =
    let t =
      holds_below-test 256 byte
        (λ byte. gives byte (hex_digit (high_digit byte)) (hex_digit (low_digit byte))) digits_table
        h in
    elim (Option-cases (hex_digit (high_digit byte))) [
      | inl a ↦ let q = rw a at t in cc
      | inr (hi, a) ↦ elim (Option-cases (hex_digit (low_digit byte))) [
        | inl b ↦ let q = rw (a, b) at t in cc
        | inr (lo, b) ↦
            let q = rw (a, b) at t in (hi, lo, a, b, ==→eq (bit_or (hi * 2 ^ 4) lo) byte q)
      ]
    ]

-- Bytes are read back from their hexadecimal digits.
pub hex_encode-hex_decode : (raw : Bytes) → AllBytes raw → hex_decode (hex_encode raw) ≡ some raw
unfolding hex_decode hex_encode
hex_encode-hex_decode [] h = refl
hex_encode-hex_decode (byte ∷ raw) (h, hs) =
    let (hi, lo, a, b, e) = byte-Digits byte h in rw (a, b, hex_encode-hex_decode raw hs, e) refl
