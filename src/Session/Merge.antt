-- ===== src/Session/Merge.antt =====
-- src/session.rs: `merge_session_cookies` as a three-way merge of maps, key by key.
use fetch.Common.{
  ℕ, Bool-cases, Option, none, some, List, [], ◌∷◌, Bytes, if◌then◌else◌, ◌≡◌, refl, ap, sym, ◌∙◌,
  inl, inr,
}
use fetch.Common.SortedMap.{get, insert, Unique, get-insert, get-remove, insert-Unique}
use fetch.Session.{
  SessionCookie, SessionCookieKey, key_of, cookie_eq, key_eq, key_eq→eq, key_order, CookieMap,
  cookie_is_expired, collect, session_cookie_map, merge_loaded_in, merge_loaded, merge_current_in,
  merge_current, merge_maps,
}

-- What a key has after the merge, by what it had when the session was loaded, what it has in this
-- process and what it has in the file now.
unfoldable pub merged_of :
    Option SessionCookie → Option SessionCookie → Option SessionCookie → Option SessionCookie
merged_of none none latest = latest
merged_of none (some current) latest = some current
merged_of (some loaded) none latest = none
merged_of (some loaded) (some current) latest =
    if cookie_eq current loaded then latest else some current

abbrev find : CookieMap → SessionCookieKey → Option SessionCookie
find entries key = get key_order entries key

find-cons :
    (k key : SessionCookieKey) (v : SessionCookie) (entries : CookieMap)
    → find ((k, v) ∷ entries) key ≡ (if key_eq k key then some v else find entries key)
unfolding get
find-cons k key v entries = refl

-- The loops, as they change what one key has.
abbrev loaded_rule :
    Option SessionCookie → Option SessionCookie → Option SessionCookie → Option SessionCookie
loaded_rule none current merged = merged
loaded_rule (some loaded) current merged = merged_of (some loaded) current merged

abbrev current_rule :
    Option SessionCookie → Option SessionCookie → Option SessionCookie → Option SessionCookie
current_rule loaded none merged = merged
current_rule none (some current) merged = some current
current_rule (some loaded) (some current) merged = merged

rules : (l c m : Option SessionCookie) → current_rule l c (loaded_rule l c m) ≡ merged_of l c m
unfolding merged_of
rules none none m = refl
rules none (some c) m = refl
rules (some l) none m = refl
rules (some l) (some c) m = refl

find-merge_loaded_in :
    (current : Option SessionCookie) (merged : CookieMap) (k key : SessionCookieKey)
    (v : SessionCookie)
    → find (merge_loaded_in current merged k v) key
      ≡ (if key_eq k key then merged_of (some v) current (find merged key) else find merged key)
unfolding merge_loaded_in merged_of
find-merge_loaded_in none merged k key v = get-remove key_order merged k key
find-merge_loaded_in (some c) merged k key v = elim (Bool-cases (cookie_eq c v)) [
  | inl e ↦ rw e (elim (Bool-cases (key_eq k key)) [ inl f ↦ rw f refl | inr f ↦ rw f refl ])
  | inr e ↦ rw e (get-insert key_order merged k key c)
]

find-merge_loaded :
    (current merged loaded : CookieMap) (key : SessionCookieKey)
    → Unique key_order loaded
    → find (merge_loaded current merged loaded) key
      ≡ loaded_rule (find loaded key) (find current key) (find merged key)
unfolding merge_loaded get
find-merge_loaded current merged [] key u = refl
find-merge_loaded current merged ((k, v) ∷ loaded) key (h, u) =
    let step = find-merge_loaded_in (find current k) merged k key v in
    let later =
      find-merge_loaded current (merge_loaded_in (find current k) merged k v) loaded key u in
    elim (Bool-cases (key_eq k key)) [
      | inl e ↦
          let p : k ≡ key = key_eq→eq k key e in
          let gone : find loaded key ≡ none = ap (find loaded) (sym p) ∙ h in
          let here : find (merge_loaded_in (find current k) merged k v) key
              ≡ merged_of (some v) (find current key) (find merged key) =
            step ∙ rw (e, p) refl in
          rw e (
            later
            ∙ ap
                (λ (o : Option SessionCookie).
                  loaded_rule o (find current key)
                    (find (merge_loaded_in (find current k) merged k v) key))
                gone
            ∙ here)
      | inr e ↦
          rw e (later ∙ ap (loaded_rule (find loaded key) (find current key)) (step ∙ rw e refl))
    ]

find-merge_current_in :
    (loaded : Option SessionCookie) (merged : CookieMap) (k key : SessionCookieKey)
    (v : SessionCookie)
    → find (merge_current_in loaded merged k v) key
      ≡ (if key_eq k key then current_rule loaded (some v) (find merged key) else find merged key)
unfolding merge_current_in
find-merge_current_in none merged k key v = get-insert key_order merged k key v
find-merge_current_in (some l) merged k key v = elim (Bool-cases (key_eq k key)) [
  | inl f ↦ rw f refl
  | inr f ↦ rw f refl
]

find-merge_current :
    (loaded merged current : CookieMap) (key : SessionCookieKey)
    → Unique key_order current
    → find (merge_current loaded merged current) key
      ≡ current_rule (find loaded key) (find current key) (find merged key)
unfolding merge_current get
find-merge_current loaded merged [] key u = refl
find-merge_current loaded merged ((k, v) ∷ current) key (h, u) =
    let next : CookieMap = merge_current_in (find loaded k) merged k v in
    let step = find-merge_current_in (find loaded k) merged k key v in
    let later = find-merge_current loaded next current key u in
    elim (Bool-cases (key_eq k key)) [
      | inl e ↦
          let p : k ≡ key = key_eq→eq k key e in
          let gone : find current key ≡ none = ap (find current) (sym p) ∙ h in
          rw e (
            later
            ∙ ap (λ (o : Option SessionCookie). current_rule (find loaded key) o (find next key))
                gone
            ∙ step
            ∙ rw (e, p) refl)
      | inr e ↦
          rw e (later ∙ ap (current_rule (find loaded key) (find current key)) (step ∙ rw e refl))
    ]

find-merge_maps :
    (loaded current latest : CookieMap) (key : SessionCookieKey)
    → Unique key_order loaded
    → Unique key_order current
    → find (merge_maps loaded current latest) key
      ≡ merged_of (find loaded key) (find current key) (find latest key)
unfolding merge_maps
find-merge_maps loaded current latest key u v =
    find-merge_current loaded (merge_loaded current latest loaded) current key v
    ∙ ap (current_rule (find loaded key) (find current key))
        (find-merge_loaded current latest loaded key u)
    ∙ rules (find loaded key) (find current key) (find latest key)

module _ (parse_rfc3339 : Bytes → Option ℕ) (now : ℕ) where
  collect-Unique :
      (entries : CookieMap) (cookies : List SessionCookie)
      → Unique key_order entries
      → Unique key_order (collect parse_rfc3339 now entries cookies)
  unfolding collect
  collect-Unique entries [] u = u
  collect-Unique entries (cookie ∷ cookies) u =
      elim (Bool-cases (cookie_is_expired parse_rfc3339 now cookie)) [
        | inl old ↦ rw old (collect-Unique entries cookies u)
        | inr valid ↦ rw valid (
            collect-Unique (insert key_order entries (key_of cookie) cookie) cookies
              (insert-Unique key_order entries (key_of cookie) cookie u))
      ]

  session_cookie_map-Unique :
      (cookies : List SessionCookie)
      → Unique key_order (session_cookie_map parse_rfc3339 now cookies)
  unfolding session_cookie_map
  session_cookie_map-Unique cookies = collect-Unique [] cookies tt

-- Of the cookies that are not expired, each key has after the merge: what this process has, where it
-- changed or added it; nothing, where this process dropped it; and what the file has now, where this
-- process left it as it was loaded or does not know it.
pub get-merge_maps :
    (parse_rfc3339 : Bytes → Option ℕ) (now : ℕ) (loaded current latest : List SessionCookie)
    (key : SessionCookieKey)
    → let of : List SessionCookie → CookieMap = session_cookie_map parse_rfc3339 now in
      get key_order (merge_maps (of loaded) (of current) (of latest)) key
      ≡ merged_of
          (get key_order (of loaded) key)
          (get key_order (of current) key)
          (get key_order (of latest) key)
get-merge_maps parse_rfc3339 now loaded current latest key =
    let of : List SessionCookie → CookieMap = session_cookie_map parse_rfc3339 now in
    find-merge_maps (of loaded) (of current) (of latest) key
      (session_cookie_map-Unique parse_rfc3339 now loaded)
      (session_cookie_map-Unique parse_rfc3339 now current)
