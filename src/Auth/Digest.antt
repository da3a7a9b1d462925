-- ===== src/Auth/Digest.antt =====
-- src/auth/digest.rs: quoted strings, hexadecimal digits and the names of algorithms.
-- A `char` is its code point.
pub mod RoundTrip
mod Tests
use Prim.Native.Nat.{bit_and, ◌^◌}
use fetch.Common.{
  ℕ, ◌+◌, ◌/◌, ◌%◌, Bool, true, false, ◌||◌, Option, none, some, List, [], ◌∷◌, ◌++◌, Bytes,
  is_empty, get_or, ◌==◌, if◌then◌else◌, Result, ok, err,
}
use fetch.Common.Text.{bytes_eq, to_ascii_lowercase}

abbrev pub Chars : Type 0
Chars = List ℕ

pub data DigestError : Type 0 where
  not_digest missing_required_parameter malformed_quoted_string : DigestError
  unsupported_algorithm unsupported_qop : Chars → DigestError

pub data Algorithm : Type 0 where
  md5 md5_sess sha256 sha256_sess sha512_256 sha512_256_sess : Algorithm

-- `replace` of one character.
pub replace : ℕ → Chars → Chars → Chars
replace from to [] = []
replace from to (c ∷ value) =
    let rest = replace from to value in if c == from then to ++ rest else c ∷ rest

pub escape_quotes : Chars → Chars
escape_quotes value = replace 0x22 (0x5c ∷ 0x22 ∷ []) (replace 0x5c (0x5c ∷ 0x5c ∷ []) value)

-- The loop of `parse_quoted_string`: what was collected, and the rest behind the quote.
pub quoted_loop : Chars → Bool → Chars → Option (Chars × Chars)
quoted_loop out escaped [] = none
quoted_loop out true (character ∷ rest) = quoted_loop (out ++ character ∷ []) false rest
quoted_loop out false (character ∷ rest) =
    let slash = quoted_loop out true rest in
    let other = quoted_loop (out ++ character ∷ []) false rest in
    if character == 0x5c then slash else if character == 0x22 then some (out, rest) else other

pub parse_quoted_string : Chars → Option (Chars × Chars)
parse_quoted_string [] = none
parse_quoted_string (c ∷ quoted) = if c == 0x22 then quoted_loop [] false quoted else none

-- "0123456789abcdef"
abbrev pub hex_digits : Bytes
hex_digits =
    b'0' ∷ b'1' ∷ b'2' ∷ b'3' ∷ b'4' ∷ b'5' ∷ b'6' ∷ b'7' ∷ b'8' ∷ b'9' ∷ b'a' ∷ b'b' ∷ b'c' ∷ b'd'
    ∷ b'e' ∷ b'f' ∷ []

pub hex_encode : Bytes → Chars
hex_encode [] = []
hex_encode (byte ∷ bytes) =
    get_or hex_digits (byte / 2 ^ 4) 0
    ∷ (get_or hex_digits (bit_and byte 0x0f) 0 ∷ hex_encode bytes)

abbrev pub name_md5 : Chars
name_md5 = b'M' ∷ b'D' ∷ b'5' ∷ []

abbrev pub name_sha : Chars
name_sha = b'S' ∷ b'H' ∷ b'A' ∷ b'-' ∷ []

abbrev pub name_sess : Chars
name_sess = b'-' ∷ b'S' ∷ b'E' ∷ b'S' ∷ b'S' ∷ []

abbrev pub name_sha256 : Chars
name_sha256 = name_sha ++ (b'2' ∷ b'5' ∷ b'6' ∷ [])

abbrev pub name_sha512_256 : Chars
name_sha512_256 = name_sha ++ (b'5' ∷ b'1' ∷ b'2' ∷ b'-' ∷ b'2' ∷ b'5' ∷ b'6' ∷ [])

pub header_value : Algorithm → Chars
header_value md5 = name_md5
header_value md5_sess = name_md5 ++ name_sess
header_value sha256 = name_sha256
header_value sha256_sess = name_sha256 ++ name_sess
header_value sha512_256 = name_sha512_256
header_value sha512_256_sess = name_sha512_256 ++ name_sess

abbrev lower : Chars → Chars
lower name = to_ascii_lowercase name

pub parse_algorithm : Chars → Result DigestError Algorithm
parse_algorithm value =
    let name = lower value in
    if is_empty name || bytes_eq name (lower name_md5)
    then ok md5
    else if bytes_eq name (lower (name_md5 ++ name_sess))
    then ok md5_sess
    else if bytes_eq name (lower name_sha256)
    then ok sha256
    else if bytes_eq name (lower (name_sha256 ++ name_sess))
    then ok sha256_sess
    else if bytes_eq name (lower name_sha512_256)
    then ok sha512_256
    else if bytes_eq name (lower (name_sha512_256 ++ name_sess))
    then ok sha512_256_sess
    else err (unsupported_algorithm name)

pub is_sess : Algorithm → Bool
is_sess md5 = false
is_sess md5_sess = true
is_sess sha256 = false
is_sess sha256_sess = true
is_sess sha512_256 = false
is_sess sha512_256_sess = true

pub opaque_param : Chars → Chars
opaque_param [] = []
opaque_param (c ∷ value) =
    (0x2c ∷ 0x20 ∷ b'o' ∷ b'p' ∷ b'a' ∷ b'q' ∷ b'u' ∷ b'e' ∷ 0x3d ∷ 0x22 ∷ [])
    ++ (escape_quotes (c ∷ value) ++ 0x22 ∷ [])
