-- ===== src/Session.antt =====
-- src/session.rs: the cookies that a session saves, where another process may have saved in between.
-- `parse_rfc3339` is the time library's; an `OffsetDateTime` is a number, and `now` the current one.
pub mod Merge
pub mod Names
pub mod Saved
mod Tests
use fetch.Common.{
  ℕ, Bool, true, false, ◌&&◌, ◌||◌, Option, none, some, and_then, List, [], ◌∷◌, Bytes, is_empty,
  ltb, leb, ◌==◌, if◌then◌else◌, ◌≡◌, refl,
}
use fetch.Common.Text.{bytes_eq, bytes_eq→eq, bytes_eq_self, &&-both}
use fetch.Common.SortedMap.{KeyOrder, Entries, get, remove, insert}

pub record SessionCookie : Type 0 where
  pub name : Bytes
  pub value : Bytes
  pub domain : Bytes
  pub host_only : Bool
  pub path : Bytes
  pub expires : Option Bytes
  pub secure : Bool
  pub http_only : Bool
  pub same_site : Bytes

pub record SessionCookieKey : Type 0 where
  pub domain : Bytes
  pub path : Bytes
  pub name : Bytes

abbrev pub key_of : SessionCookie → SessionCookieKey
key_of cookie = record { domain = cookie.domain; path = cookie.path; name = cookie.name }

-- `==` of the fields, as it is derived.
abbrev pub bool_eq : Bool → Bool → Bool
bool_eq true b = b
bool_eq false true = false
bool_eq false false = true

pub expires_eq : Option Bytes → Option Bytes → Bool
expires_eq none none = true
expires_eq (some a) (some b) = bytes_eq a b
expires_eq none (some b) = false
expires_eq (some a) none = false

pub cookie_eq : SessionCookie → SessionCookie → Bool
cookie_eq a b =
    (((bytes_eq a.name b.name && bytes_eq a.value b.value)
        && (bytes_eq a.domain b.domain && bool_eq a.host_only b.host_only))
      && ((bytes_eq a.path b.path && expires_eq a.expires b.expires)
          && (bool_eq a.secure b.secure && bool_eq a.http_only b.http_only)))
    && bytes_eq a.same_site b.same_site

pub key_eq : SessionCookieKey → SessionCookieKey → Bool
key_eq a b = (bytes_eq a.domain b.domain && bytes_eq a.path b.path) && bytes_eq a.name b.name

-- `Ord` of the keys, as it is derived: by domain, path and name, each byte by byte.
pub bytes_before : Bytes → Bytes → Bool
bytes_before xs [] = false
bytes_before [] (y ∷ ys) = true
bytes_before (x ∷ xs) (y ∷ ys) = ltb x y || ((x == y) && bytes_before xs ys)

pub key_before : SessionCookieKey → SessionCookieKey → Bool
key_before a b =
    bytes_before a.domain b.domain
    || (bytes_eq a.domain b.domain
        && (bytes_before a.path b.path || (bytes_eq a.path b.path && bytes_before a.name b.name)))

pub key_eq→eq : (a b : SessionCookieKey) → key_eq a b ≡ true → a ≡ b
unfolding key_eq
key_eq→eq a b h =
    let (front, n) =
      &&-both (bytes_eq a.domain b.domain && bytes_eq a.path b.path) (bytes_eq a.name b.name) h in
    let (d, p) = &&-both (bytes_eq a.domain b.domain) (bytes_eq a.path b.path) front in
    let x = bytes_eq→eq a.domain b.domain d in
    let y = bytes_eq→eq a.path b.path p in
    let z = bytes_eq→eq a.name b.name n in λ i. record { domain = x i; path = y i; name = z i }

pub key_eq_self : (a : SessionCookieKey) → key_eq a a ≡ true
unfolding key_eq
key_eq_self a = rw (bytes_eq_self a.domain, bytes_eq_self a.path, bytes_eq_self a.name) refl

abbrev pub key_order : KeyOrder SessionCookieKey
key_order = record {
  same = key_eq;
  before = key_before;
  same→eq = key_eq→eq;
  same_self = key_eq_self;
}

abbrev pub CookieMap : Type 0
CookieMap = Entries SessionCookieKey SessionCookie

-- `is_ascii_alphanumeric() || byte == b'_' || byte == b'-'`
pub is_name_byte : ℕ → Bool
is_name_byte c =
    (((leb b'0' c && leb c b'9') || (leb b'A' c && leb c b'Z')) || (leb b'a' c && leb c b'z'))
    || ((c == b'_') || (c == b'-'))

pub all_name_bytes : Bytes → Bool
all_name_bytes [] = true
all_name_bytes (c ∷ name) = is_name_byte c && all_name_bytes name

pub is_valid_name : Bytes → Bool
is_valid_name [] = false
is_valid_name (c ∷ name) = all_name_bytes (c ∷ name)

module _ (parse_rfc3339 : Bytes → Option ℕ) (now : ℕ) where
  pub is_some_and_past : Option ℕ → Bool
  is_some_and_past none = false
  is_some_and_past (some expires) = leb expires now

  pub cookie_is_expired : SessionCookie → Bool
  cookie_is_expired cookie = is_some_and_past (and_then cookie.expires parse_rfc3339)

  -- The entries of the cookies that are not expired; of two with one key the later one stays.
  pub collect : CookieMap → List SessionCookie → CookieMap
  collect entries [] = entries
  collect entries (cookie ∷ cookies) =
      collect
        (if cookie_is_expired cookie
          then entries
          else insert key_order entries (key_of cookie) cookie)
        cookies

  pub session_cookie_map : List SessionCookie → CookieMap
  session_cookie_map cookies = collect [] cookies

-- A round of the first loop, by what `current` has under the key.
pub merge_loaded_in :
    Option SessionCookie → CookieMap → SessionCookieKey → SessionCookie → CookieMap
merge_loaded_in (some current_cookie) merged key loaded_cookie =
    if cookie_eq current_cookie loaded_cookie
    then merged
    else insert key_order merged key current_cookie
merge_loaded_in none merged key loaded_cookie = remove key_order merged key

pub merge_loaded : CookieMap → CookieMap → CookieMap → CookieMap
merge_loaded current merged [] = merged
merge_loaded current merged ((key, loaded_cookie) ∷ loaded) =
    merge_loaded current (merge_loaded_in (get key_order current key) merged key loaded_cookie)
      loaded

-- A round of the second loop, by what `loaded` has under the key.
pub merge_current_in :
    Option SessionCookie → CookieMap → SessionCookieKey → SessionCookie → CookieMap
merge_current_in (some loaded_cookie) merged key current_cookie = merged
merge_current_in none merged key current_cookie = insert key_order merged key current_cookie

pub merge_current : CookieMap → CookieMap → CookieMap → CookieMap
merge_current loaded merged [] = merged
merge_current loaded merged ((key, current_cookie) ∷ current) =
    merge_current loaded (merge_current_in (get key_order loaded key) merged key current_cookie)
      current

-- The two loops over the three maps.
pub merge_maps : CookieMap → CookieMap → CookieMap → CookieMap
merge_maps loaded current latest = merge_current loaded (merge_loaded current latest loaded) current

pub into_values : CookieMap → List SessionCookie
into_values [] = []
into_values ((key, cookie) ∷ entries) = cookie ∷ into_values entries

pub merge_session_cookies :
    (Bytes → Option ℕ)
    → ℕ
    → List SessionCookie
    → List SessionCookie
    → List SessionCookie
    → List SessionCookie
merge_session_cookies parse_rfc3339 now loaded current latest = into_values (
    merge_maps (session_cookie_map parse_rfc3339 now loaded)
      (session_cookie_map parse_rfc3339 now current) (session_cookie_map parse_rfc3339 now latest))
