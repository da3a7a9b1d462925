-- ===== src/Http/Http3Cache/Upsert.antt =====
-- src/http/http3_cache.rs: `upsert_candidate` as the insertion into a map from endpoints.
use fetch.Common.{
  ◌≡◌, refl, Bool-cases, true, ◌&&◌, Option, none, some, List, [], ◌∷◌, ◌==◌, ==→eq, eq→==,
  if◌then◌else◌, inl, inr,
}
use fetch.Common.Text.{
  bytes_eq, bytes_eq→eq, bytes_eq_self, &&-both, eq_ignore_ascii_case, to_ascii_lowercase,
}
use fetch.Http.Http3Cache.{StoredCandidate, same_endpoint, upsert_candidate}

-- The candidate that is stored for the endpoint of another one.
unfoldable pub find_endpoint : List StoredCandidate → StoredCandidate → Option StoredCandidate
find_endpoint [] endpoint = none
find_endpoint (c ∷ candidates) endpoint =
    let rest = find_endpoint candidates endpoint in
    if same_endpoint c endpoint then some c else rest

same_endpoint-congr :
    (a b d : StoredCandidate) → same_endpoint a b ≡ true → same_endpoint a d ≡ same_endpoint b d
unfolding same_endpoint eq_ignore_ascii_case
same_endpoint-congr a b d h =
    let (names, port) =
      &&-both (bytes_eq a.source b.source && eq_ignore_ascii_case a.alt_host b.alt_host)
        (a.alt_port == b.alt_port) h in
    let (source, host) =
      &&-both (bytes_eq a.source b.source) (eq_ignore_ascii_case a.alt_host b.alt_host) names in
    let x : a.source ≡ b.source = bytes_eq→eq a.source b.source source in
    let y : to_ascii_lowercase a.alt_host ≡ to_ascii_lowercase b.alt_host =
      bytes_eq→eq (to_ascii_lowercase a.alt_host) (to_ascii_lowercase b.alt_host) host in
    let z : a.alt_port ≡ b.alt_port = ==→eq a.alt_port b.alt_port port in rw (x, y, z) refl

same_endpoint_self : (a : StoredCandidate) → same_endpoint a a ≡ true
unfolding same_endpoint eq_ignore_ascii_case
same_endpoint_self a =
    rw
      (
        bytes_eq_self a.source,
        bytes_eq_self (to_ascii_lowercase a.alt_host),
        eq→== a.alt_port a.alt_port refl,
      )
      refl

-- After a candidate is inserted it is the one of its endpoint, and each other endpoint has the
-- candidate that it had.
pub find_endpoint-upsert_candidate :
    (candidates : List StoredCandidate) (candidate endpoint : StoredCandidate)
    → find_endpoint (upsert_candidate candidates candidate) endpoint ≡ (
        if same_endpoint candidate endpoint
        then some candidate
        else find_endpoint candidates endpoint)
unfolding find_endpoint upsert_candidate
find_endpoint-upsert_candidate [] candidate endpoint = refl
find_endpoint-upsert_candidate (c ∷ candidates) candidate endpoint =
    let ih = find_endpoint-upsert_candidate candidates candidate endpoint in
    elim (Bool-cases (same_endpoint c candidate)) [
      | inl e ↦
          rw (e, same_endpoint-congr c candidate endpoint e)
            (elim (Bool-cases (same_endpoint candidate endpoint)) [
              | inl f ↦ rw f refl
              | inr f ↦ rw f refl
            ])
      | inr e ↦ rw e (elim (Bool-cases (same_endpoint c endpoint)) [
        | inl f ↦ elim (Bool-cases (same_endpoint candidate endpoint)) [
          | inl g ↦
              let x = same_endpoint-congr c endpoint candidate f in
              let y = same_endpoint-congr candidate endpoint candidate g in
              let z = same_endpoint_self candidate in cc
          | inr g ↦ rw (f, g) refl
        ]
        | inr f ↦ rw f ih
      ])
    ]
