-- ===== src/Dns/Svcb/Format.antt =====
-- src/dns/svcb.rs: how the data of a record is shown, and the generic notation of data. The encoding in
-- base 64 and the quoting of a text are parameters.
use Prim.Native.Nat.{bit_and, bit_or}
use fetch.Common.{
  ℕ, zero, suc, ◌+◌, ◌-◌, ◌*◌, ◌/◌, ◌^◌, ◌&&◌, Option, none, some, List, [], ◌∷◌, ◌++◌, map, Bytes,
  length, get_or, take, drop, ltb, leb, ◌==◌, if◌then◌else◌,
}
use fetch.Common.Text.{codes}
use fetch.Common.Words.{u16_from_be_bytes}
use fetch.Common.Utf8.{from_utf8_lossy}
use fetch.Common.Decimal.{to_string}
use fetch.Dns.Svcb.Ipv6.{join, hex_letters, ipv4_to_string, ipv6_to_string}
use fetch.Dns.Svcb.{
  ◌>>=◌, key_mandatory, key_alpn, key_no_default_alpn, key_port, key_ipv4hint, key_ech,
  key_ipv6hint, key_doh_path, is_multiple_of, chunks_exact, word_of, parse_alpn, unpack_dns_name,
}

-- What the libraries write.
pub record Notation : Type 0 where
  pub base64 : Bytes → Bytes
  pub quoted : Bytes → Bytes

unfoldable pub hex_encode : Bytes → Bytes
hex_encode [] = []
hex_encode (byte ∷ raw) =
    get_or hex_letters (byte / 2 ^ 4) 0
    ∷ (get_or hex_letters (bit_and byte 0x0f) 0 ∷ hex_encode raw)

unfoldable pub word_to_string : Bytes → Bytes
word_to_string chunk = to_string (word_of chunk)

module _ (notation : Notation) where
  unfoldable pub format_svc_param : ℕ → Bytes → Bytes
  format_svc_param key value =
      let hex = codes "0x" ++ hex_encode value in
      let comma = b',' ∷ [] in
      if key == key_mandatory
      then codes "Mandatory="
        ++ (if is_multiple_of (length value) 2
            then join comma (map word_to_string (chunks_exact 2 value))
            else hex)
      else if key == key_alpn
      then codes "ALPN=" ++ elim (parse_alpn value) [ some alpns ↦ join comma alpns | none ↦ hex ]
      else if key == key_no_default_alpn
      then codes "NoDefaultALPN"
      else if key == key_port
      then codes "Port=" ++ (if length value == 2 then word_to_string value else hex)
      else if key == key_ipv4hint
      then codes "IPv4Hint="
        ++ (if is_multiple_of (length value) 4
            then join comma (map ipv4_to_string (chunks_exact 4 value))
            else hex)
      else if key == key_ipv6hint
      then codes "IPv6Hint="
        ++ (if is_multiple_of (length value) 16
            then join comma (map ipv6_to_string (chunks_exact 16 value))
            else hex)
      else if key == key_ech
      then codes "ECH=" ++ notation.base64 value
      else if key == key_doh_path
      then codes "DOHPath=" ++ notation.quoted (from_utf8_lossy value)
      else codes "key" ++ (to_string key ++ (b'=' ∷ hex))

  -- Each parameter takes four bytes at least.
  unfoldable pub format_params : ℕ → Bytes → Option (List Bytes)
  format_params fuel [] = some []
  format_params zero (byte ∷ rest) = none
  format_params (suc fuel) (byte ∷ rest) =
      let raw = byte ∷ rest in
      let key = u16_from_be_bytes (get_or raw 0 0) (get_or raw 1 0) in
      let len = u16_from_be_bytes (get_or raw 2 0) (get_or raw 3 0) in
      let others = format_params fuel (drop (len + 4) raw) in
      if ltb (length raw) 4
      then none
      else if ltb (length raw) (4 + len)
      then none
      else (others >>= λ params. some (format_svc_param key (take len (drop 4 raw)) ∷ params))

  unfoldable pub format_rdata : Bytes → Option Bytes
  format_rdata raw =
      if ltb (length raw) 3
      then none
      else (unpack_dns_name (drop 2 raw) >>= λ named.
          format_params (length named.1) named.1 >>= λ params.
          some (join (b' ' ∷ []) (to_string (word_of raw) ∷ (named.0 ∷ params))))

unfoldable pub hex_digit : ℕ → Option ℕ
hex_digit byte =
    if leb b'0' byte && leb byte b'9'
    then some (byte - b'0')
    else if leb b'a' byte && leb byte b'f'
    then some (byte - b'a' + 10)
    else if leb b'A' byte && leb byte b'F'
    then some (byte - b'A' + 10)
    else none

-- An odd number of digits is refused.
unfoldable pub hex_decode : Bytes → Option Bytes
hex_decode [] = some []
hex_decode (one ∷ []) = none
hex_decode (first ∷ (second ∷ raw)) = hex_digit first >>= λ hi.
    hex_digit second >>= λ lo. hex_decode raw >>= λ bytes. some (bit_or (hi * 2 ^ 4) lo ∷ bytes)
