-- ===== src/Session/Tests.antt =====
-- src/session.rs: a cookie that two processes changed.
use fetch.Common.{ℕ, ◌<◌, ◌≡◌, ◌↔◌, refl, true, false, Option, none, some, List, [], ◌∷◌, Bytes}
use fetch.Common.Text.{bytes_eq}
use fetch.Common.SortedMap.{get, remove, place, insert}
use fetch.Session.{
  SessionCookie, key_of, key_order, CookieMap, cookie_eq, expires_eq, key_eq, key_before,
  bytes_before, cookie_is_expired, is_some_and_past, collect, session_cookie_map, merge_loaded_in,
  merge_loaded, merge_current_in, merge_current, merge_maps, into_values, merge_session_cookies,
  is_valid_name, all_name_bytes, is_name_byte,
}
use fetch.Session.Merge.{merged_of}
use fetch.Session.Saved.{find_cookie, find_cookie-merge_session_cookies}
use fetch.Session.Names.{alphabet, has_byte, is_valid_name-has_byte}

-- A library that reads a time of one byte.
abbrev parse_byte : Bytes → Option ℕ
parse_byte [] = none
parse_byte (t ∷ rest) = some t

abbrev cookie : ℕ → ℕ → ℕ → SessionCookie
cookie name value expires = record {
  name = name ∷ [];
  value = value ∷ [];
  domain = b'd' ∷ [];
  host_only = true;
  path = b'/' ∷ [];
  expires = some (expires ∷ []);
  secure = false;
  http_only = false;
  same_site = [];
}

abbrev loaded : List SessionCookie
loaded = cookie b'a' 1 90 ∷ cookie b'b' 1 90 ∷ cookie b'c' 1 90 ∷ []

-- `b` is dropped, `c` is changed, and `e` is added.
abbrev current : List SessionCookie
current = cookie b'a' 1 90 ∷ cookie b'c' 2 90 ∷ cookie b'e' 1 90 ∷ []

-- Another process changed `a` and `c`, and added `f`, which is over.
abbrev latest : List SessionCookie
latest = cookie b'a' 3 90 ∷ cookie b'b' 1 90 ∷ cookie b'c' 3 90 ∷ cookie b'f' 1 10 ∷ []

merge-session_cookies :
    merge_session_cookies parse_byte 50 loaded current latest
    ≡ cookie b'a' 3 90 ∷ cookie b'c' 2 90 ∷ cookie b'e' 1 90 ∷ []
unfolding merge_session_cookies session_cookie_map collect cookie_is_expired is_some_and_past insert
    place remove get merge_maps merge_loaded merge_loaded_in merge_current merge_current_in
    into_values cookie_eq expires_eq key_eq key_before bytes_before bytes_eq
merge-session_cookies = refl

find_cookie-merge_session_cookies_example :
    let of : List SessionCookie → CookieMap = session_cookie_map parse_byte 50 in
    find_cookie
      (merge_session_cookies parse_byte 50 loaded current latest)
      (key_of (cookie b'c' 0 0))
    ≡ merged_of
        (get key_order (of loaded) (key_of (cookie b'c' 0 0)))
        (get key_order (of current) (key_of (cookie b'c' 0 0)))
        (get key_order (of latest) (key_of (cookie b'c' 0 0)))
find_cookie-merge_session_cookies_example =
    find_cookie-merge_session_cookies parse_byte 50 loaded current latest (key_of (cookie b'c' 0 0))

abbrev name : Bytes
name = b'a' ∷ b'-' ∷ b'1' ∷ []

is_valid_name-has_byte_example :
    (is_valid_name name ≡ true)
    ↔ ((0 < 3) × ((byte : ℕ) → has_byte byte name ≡ true → has_byte byte alphabet ≡ true))
is_valid_name-has_byte_example = is_valid_name-has_byte name

name_valid : is_valid_name name ≡ true
unfolding is_valid_name all_name_bytes is_name_byte
name_valid = refl
