-- ===== src/Session/Saved.antt =====
-- src/session.rs: the list of cookies that `merge_session_cookies` gives, key by key.
use fetch.Common.{
  ℕ, Bool-cases, Option, none, some, List, [], ◌∷◌, Bytes, if◌then◌else◌, ◌≡◌, refl, ◌∙◌, inl, inr,
}
use fetch.Common.SortedMap.{get, insert}
use fetch.Common.SortedMap.Every.{EveryEntry, insert-EveryEntry, remove-EveryEntry, get-EveryEntry}
use fetch.Session.{
  SessionCookie, SessionCookieKey, key_of, key_eq, key_order, cookie_eq, CookieMap,
  cookie_is_expired, collect, session_cookie_map, merge_loaded_in, merge_loaded, merge_current_in,
  merge_current, merge_maps, into_values, merge_session_cookies,
}
use fetch.Session.Merge.{merged_of, get-merge_maps}

-- The cookie of a list that has a key.
unfoldable pub find_cookie : List SessionCookie → SessionCookieKey → Option SessionCookie
find_cookie [] key = none
find_cookie (cookie ∷ cookies) key =
    let rest = find_cookie cookies key in if key_eq (key_of cookie) key then some cookie else rest

-- Each entry stands under the key of its cookie.
abbrev IsKeyOf : SessionCookieKey → SessionCookie → Type 0
IsKeyOf key cookie = key_of cookie ≡ key

find_cookie-into_values :
    (entries : CookieMap) (key : SessionCookieKey)
    → EveryEntry IsKeyOf entries
    → find_cookie (into_values entries) key ≡ get key_order entries key
unfolding find_cookie into_values get
find_cookie-into_values [] key h = refl
find_cookie-into_values ((k, cookie) ∷ entries) key (h, more) =
    rw (h, find_cookie-into_values entries key more) refl

merge_loaded_in-EveryEntry :
    (current : Option SessionCookie) (merged : CookieMap) (key : SessionCookieKey)
    (loaded : SessionCookie)
    → ((c : SessionCookie) → current ≡ some c → IsKeyOf key c)
    → EveryEntry IsKeyOf merged
    → EveryEntry IsKeyOf (merge_loaded_in current merged key loaded)
unfolding merge_loaded_in
merge_loaded_in-EveryEntry none merged key loaded f h =
    remove-EveryEntry key_order IsKeyOf merged key h
merge_loaded_in-EveryEntry (some c) merged key loaded f h = elim (Bool-cases (cookie_eq c loaded)) [
  | inl e ↦ rw e h
  | inr e ↦ rw e (insert-EveryEntry key_order IsKeyOf merged key c (f c refl) h)
]

merge_loaded-EveryEntry :
    (current merged loaded : CookieMap)
    → EveryEntry IsKeyOf current
    → EveryEntry IsKeyOf merged
    → EveryEntry IsKeyOf (merge_loaded current merged loaded)
unfolding merge_loaded
merge_loaded-EveryEntry current merged [] c h = h
merge_loaded-EveryEntry current merged ((key, cookie) ∷ loaded) c h =
    merge_loaded-EveryEntry current (merge_loaded_in (get key_order current key) merged key cookie)
      loaded c
      (merge_loaded_in-EveryEntry (get key_order current key) merged key cookie
        (λ v q. get-EveryEntry key_order IsKeyOf current key c q) h)

merge_current_in-EveryEntry :
    (loaded : Option SessionCookie) (merged : CookieMap) (key : SessionCookieKey)
    (cookie : SessionCookie)
    → IsKeyOf key cookie
    → EveryEntry IsKeyOf merged
    → EveryEntry IsKeyOf (merge_current_in loaded merged key cookie)
unfolding merge_current_in
merge_current_in-EveryEntry none merged key cookie f h =
    insert-EveryEntry key_order IsKeyOf merged key cookie f h
merge_current_in-EveryEntry (some l) merged key cookie f h = h

merge_current-EveryEntry :
    (loaded merged current : CookieMap)
    → EveryEntry IsKeyOf current
    → EveryEntry IsKeyOf merged
    → EveryEntry IsKeyOf (merge_current loaded merged current)
unfolding merge_current
merge_current-EveryEntry loaded merged [] c h = h
merge_current-EveryEntry loaded merged ((key, cookie) ∷ current) (f, c) h =
    merge_current-EveryEntry loaded (merge_current_in (get key_order loaded key) merged key cookie)
      current c (merge_current_in-EveryEntry (get key_order loaded key) merged key cookie f h)

module _ (parse_rfc3339 : Bytes → Option ℕ) (now : ℕ) where
  collect-EveryEntry :
      (entries : CookieMap) (cookies : List SessionCookie)
      → EveryEntry IsKeyOf entries
      → EveryEntry IsKeyOf (collect parse_rfc3339 now entries cookies)
  unfolding collect
  collect-EveryEntry entries [] h = h
  collect-EveryEntry entries (cookie ∷ cookies) h =
      elim (Bool-cases (cookie_is_expired parse_rfc3339 now cookie)) [
        | inl old ↦ rw old (collect-EveryEntry entries cookies h)
        | inr valid ↦ rw valid (
            collect-EveryEntry (insert key_order entries (key_of cookie) cookie) cookies
              (insert-EveryEntry key_order IsKeyOf entries (key_of cookie) cookie refl h))
      ]

  session_cookie_map-EveryEntry :
      (cookies : List SessionCookie)
      → EveryEntry IsKeyOf (session_cookie_map parse_rfc3339 now cookies)
  unfolding session_cookie_map
  session_cookie_map-EveryEntry cookies = collect-EveryEntry [] cookies tt

merge_maps-EveryEntry :
    (loaded current latest : CookieMap)
    → EveryEntry IsKeyOf current
    → EveryEntry IsKeyOf latest
    → EveryEntry IsKeyOf (merge_maps loaded current latest)
unfolding merge_maps
merge_maps-EveryEntry loaded current latest c h =
    merge_current-EveryEntry loaded _ current c (merge_loaded-EveryEntry current latest loaded c h)

-- Of the cookies that are not expired, the merged list has for each key: what this process has, where
-- it changed or added it; none, where this process dropped it; and what the file has now, where this
-- process left it as it was loaded or does not know it.
pub find_cookie-merge_session_cookies :
    (parse_rfc3339 : Bytes → Option ℕ) (now : ℕ) (loaded current latest : List SessionCookie)
    (key : SessionCookieKey)
    → let of : List SessionCookie → CookieMap = session_cookie_map parse_rfc3339 now in
      find_cookie (merge_session_cookies parse_rfc3339 now loaded current latest) key
      ≡ merged_of
          (get key_order (of loaded) key)
          (get key_order (of current) key)
          (get key_order (of latest) key)
unfolding merge_session_cookies
find_cookie-merge_session_cookies parse_rfc3339 now loaded current latest key =
    let of : List SessionCookie → CookieMap = session_cookie_map parse_rfc3339 now in
    find_cookie-into_values (merge_maps (of loaded) (of current) (of latest)) key (
      merge_maps-EveryEntry (of loaded) (of current) (of latest)
        (session_cookie_map-EveryEntry parse_rfc3339 now current)
        (session_cookie_map-EveryEntry parse_rfc3339 now latest))
    ∙ get-merge_maps parse_rfc3339 now loaded current latest key
