-- ===== src/Dns/Svcb.antt =====
-- src/dns/svcb.rs: the records that bind a service to an endpoint. An offset into the data is the rest of
-- the data from there.
pub mod Ipv6
pub mod Format
pub mod Params
mod Fuel
pub mod Hex
pub mod Lookup
pub mod RoundTrip
mod Tests
use Prim.Native.Nat.{bit_and}
use fetch.Common.{
  ℕ, zero, suc, ◌+◌, ◌-◌, ◌%◌, Bool, true, false, not, ◌&&◌, ◌||◌, Option, none, some, and_then,
  List, [], ◌∷◌, ◌++◌, map, Bytes, length, is_empty, get_or, take, drop, ltb, ◌==◌, if◌then◌else◌,
}
use fetch.Common.Text.{bytes_eq}
use fetch.Common.Words.{u16_from_be_bytes}
use fetch.Common.Utf8.{is_utf8, from_utf8_lossy}
use fetch.Dns.Wire.{joined}

abbrev pub key_mandatory : ℕ
key_mandatory = 0

abbrev pub key_alpn : ℕ
key_alpn = 1

abbrev pub key_no_default_alpn : ℕ
key_no_default_alpn = 2

abbrev pub key_port : ℕ
key_port = 3

abbrev pub key_ipv4hint : ℕ
key_ipv4hint = 4

abbrev pub key_ech : ℕ
key_ech = 5

abbrev pub key_ipv6hint : ℕ
key_ipv6hint = 6

abbrev pub key_doh_path : ℕ
key_doh_path = 7

abbrev pub supported_mandatory_keys : List ℕ
supported_mandatory_keys =
    key_alpn ∷ key_no_default_alpn ∷ key_port ∷ key_ipv4hint ∷ key_ech ∷ key_ipv6hint ∷ []

-- An address is the list of its octets.
pub record SvcbRecord : Type 0 where
  pub priority : ℕ
  pub target : Bytes
  pub alpn : List Bytes
  pub no_default_alpn : Bool
  pub port : Option ℕ
  pub ipv4_hint : List Bytes
  pub ipv6_hint : List Bytes
  pub ech : Option Bytes
  pub mandatory : List ℕ
  pub unsupported_mandatory : List ℕ
  pub ttl : Option ℕ

pub is_alias_mode : SvcbRecord → Bool
is_alias_mode r = r.priority == 0

pub is_usable : SvcbRecord → Bool
is_usable r = is_empty r.unsupported_mandatory

pub has_text : List Bytes → Bytes → Bool
has_text [] protocol = false
has_text (alpn ∷ alpns) protocol = bytes_eq alpn protocol || has_text alpns protocol

pub advertises_alpn : SvcbRecord → Bytes → Bool
advertises_alpn r protocol = has_text r.alpn protocol

pub record SvcParam : Type 0 where
  pub key : ℕ
  pub value : Bytes

-- `?` on an `Option`.
infixl 5 ◌>>=◌
abbrev pub ◌>>=◌ : {A B : Type 0} → Option A → (A → Option B) → Option B
o >>= rest = and_then o rest

-- The labels of a name and what is behind it. Each label takes a byte.
pub unpack_labels : ℕ → Bytes → Option (List Bytes × Bytes)
unpack_labels zero raw = none
unpack_labels (suc fuel) [] = none
unpack_labels (suc fuel) (len ∷ rest) =
    let others = unpack_labels fuel (drop len rest) in
    if len == 0
    then some ([], rest)
    else if not (bit_and len 0xc0 == 0)
    then none
    else if ltb (length rest) len
    then none
    else (others >>= λ read. some (from_utf8_lossy (take len rest) ∷ read.0, read.1))

pub unpack_dns_name : Bytes → Option (Bytes × Bytes)
unpack_dns_name raw = unpack_labels (length raw) raw >>= λ read. some (joined read.0, read.1)

-- Each parameter takes four bytes at least.
pub read_params : ℕ → Bytes → Option (List SvcParam)
read_params fuel [] = some []
read_params zero (byte ∷ rest) = none
read_params (suc fuel) (byte ∷ rest) =
    let raw = byte ∷ rest in
    let key = u16_from_be_bytes (get_or raw 0 0) (get_or raw 1 0) in
    let len = u16_from_be_bytes (get_or raw 2 0) (get_or raw 3 0) in
    let others = read_params fuel (drop (len + 4) raw) in
    if ltb (length raw) 4
    then none
    else if ltb (length raw) (4 + len)
    then none
    else (others >>= λ params. some (record { key = key; value = take len (drop 4 raw) } ∷ params))

-- `is_multiple_of`
abbrev pub is_multiple_of : ℕ → ℕ → Bool
is_multiple_of n zero = n == 0
is_multiple_of n (suc d) = n % suc d == 0

-- `chunks_exact`: with the number of bytes that the current chunk still wants behind the next one.
pub chunks_from : ℕ → ℕ → Bytes → Bytes → List Bytes
chunks_from size left current [] = []
chunks_from size zero current (byte ∷ bytes) =
    (current ++ byte ∷ []) ∷ chunks_from size (size - 1) [] bytes
chunks_from size (suc left) current (byte ∷ bytes) =
    chunks_from size left (current ++ byte ∷ []) bytes

abbrev pub chunks_exact : ℕ → Bytes → List Bytes
chunks_exact size value = chunks_from size (size - 1) [] value

abbrev pub word_of : Bytes → ℕ
word_of chunk = u16_from_be_bytes (get_or chunk 0 0) (get_or chunk 1 0)

pub parse_mandatory : Bytes → Option (List ℕ)
parse_mandatory value =
    if is_multiple_of (length value) 2 then some (map word_of (chunks_exact 2 value)) else none

-- Each protocol takes a byte.
pub alpn_loop : ℕ → Bytes → Option (List Bytes)
alpn_loop fuel [] = some []
alpn_loop zero (len ∷ rest) = none
alpn_loop (suc fuel) (len ∷ rest) =
    let others = alpn_loop fuel (drop len rest) in
    if len == 0 || ltb (length rest) len
    then none
    else if is_utf8 (take len rest)
    then (others >>= λ alpns. some (take len rest ∷ alpns))
    else none

pub parse_alpn : Bytes → Option (List Bytes)
parse_alpn value = alpn_loop (length value) value

pub apply_param : SvcbRecord → SvcParam → Option SvcbRecord
apply_param r param =
    if param.key == key_mandatory
    then (parse_mandatory param.value >>= λ keys. some (record r { mandatory = keys }))
    else if param.key == key_alpn
    then (parse_alpn param.value >>= λ alpns. some (record r { alpn = alpns }))
    else if param.key == key_no_default_alpn
    then if is_empty param.value then some (record r { no_default_alpn = true }) else none
    else if param.key == key_port
    then if length param.value == 2
      then some (record r { port = some (word_of param.value) })
      else none
    else if param.key == key_ipv4hint
    then if is_multiple_of (length param.value) 4
      then some (record r { ipv4_hint = chunks_exact 4 param.value })
      else none
    else if param.key == key_ech
    then some (record r { ech = some param.value })
    else if param.key == key_ipv6hint
    then if is_multiple_of (length param.value) 16
      then some (record r { ipv6_hint = chunks_exact 16 param.value })
      else none
    else some r

pub apply_params : SvcbRecord → List SvcParam → Option SvcbRecord
apply_params r [] = some r
apply_params r (param ∷ params) = apply_param r param >>= λ next. apply_params next params

pub is_supported : List ℕ → ℕ → Bool
is_supported [] key = false
is_supported (supported ∷ others) key = supported == key || is_supported others key

-- The keys that `SUPPORTED_MANDATORY_KEYS` does not contain.
pub unsupported_keys : List ℕ → List ℕ
unsupported_keys [] = []
unsupported_keys (key ∷ keys) =
    let rest = unsupported_keys keys in
    if is_supported supported_mandatory_keys key then rest else key ∷ rest

abbrev pub bare_record : ℕ → Bytes → SvcbRecord
bare_record priority target = record {
  priority = priority;
  target = target;
  alpn = [];
  no_default_alpn = false;
  port = none;
  ipv4_hint = [];
  ipv6_hint = [];
  ech = none;
  mandatory = [];
  unsupported_mandatory = [];
  ttl = none;
}

pub record_from_params : ℕ → Bytes → List SvcParam → Option SvcbRecord
record_from_params priority target params =
    apply_params (bare_record priority target) params >>= λ r.
    some (record r { unsupported_mandatory = unsupported_keys r.mandatory })

pub parse_rdata : Bytes → Option SvcbRecord
parse_rdata raw =
    if ltb (length raw) 3
    then none
    else (unpack_dns_name (drop 2 raw) >>= λ named.
        read_params (length named.1) named.1 >>= λ params.
        record_from_params (word_of raw) named.0 params)
