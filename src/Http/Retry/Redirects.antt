-- ===== src/Http/Retry/Redirects.antt =====
-- src/http/retry.rs: what a redirect leads to.
use fetch.Common.{
  leb→gt, ℕ, ◌<◌, ◌≡◌, refl, sym, Bool, Bool-cases, true, false, not, ◌&&◌, ◌||◌, ◌⊎◌, inl, inr,
  Option, none, some, Bytes, leb, ◌==◌, if◌then◌else◌, ok, ok_inj, some_inj, Option-cases,
}
use fetch.Common.Text.{bytes_eq, bytes_eq→eq, &&-both}
use fetch.Http.Retry.{
  get_method, post_method, head_method, http_scheme, https_scheme, is_redirect_status,
  joined_target, redirect_limit, redirects_off, located_target, redirect_target, RequestBody,
  RedirectedRequest, request_body_replayable, redirected_request,
}

-- What a redirect makes of a request.
pub record Redirected {Multipart Descriptor : Type 0} (method : Bytes)
    (body : RequestBody Multipart Descriptor) (status : ℕ)
    (request : RedirectedRequest Multipart Descriptor) : Type 0 where
  pub replayable : request_body_replayable request.body ≡ true
  pub method_kept_or_get : (request.method ≡ method) ⊎ (request.method ≡ get_method)
  pub body_kept_or_dropped : (request.body ≡ body) ⊎ (request.body ≡ none)
  pub stripped_without_body : request.strip_entity_headers ≡ true → request.body ≡ none
  pub temporary_kept :
      ((status ≡ 307) ⊎ (status ≡ 308)) → (request.method ≡ method) × (request.body ≡ body)

no_body-replayable :
    (Multipart Descriptor : Type 0)
    → request_body_replayable {Multipart = Multipart} {Descriptor = Descriptor} none ≡ true
unfolding request_body_replayable
no_body-replayable Multipart Descriptor = refl

temporary_others :
    (status : ℕ)
    → ((status ≡ 307) ⊎ (status ≡ 308))
    → (((status == 301) || (status == 302)) ≡ false) × ((status == 303) ≡ false)
temporary_others status (inl e) = rw e (refl, refl)
temporary_others status (inr e) = rw e (refl, refl)

other_arms : (a c d : Bool) → ((a || c) || d) ≡ true → c ≡ false → (a || d) ≡ true
other_arms true c d h k = refl
other_arms false true d h k = cc
other_arms false false d h k = h

either_true : (a b : Bool) → (a || b) ≡ true → (a ≡ true) ⊎ (b ≡ true)
either_true true b h = inl refl
either_true false b h = inr h

schemes :
    (name : Bytes)
    → (bytes_eq name http_scheme || bytes_eq name https_scheme) ≡ true
    → (name ≡ http_scheme) ⊎ (name ≡ https_scheme)
schemes name h = elim (either_true (bytes_eq name http_scheme) (bytes_eq name https_scheme) h) [
  | inl e ↦ inl (bytes_eq→eq name http_scheme e)
  | inr e ↦ inr (bytes_eq→eq name https_scheme e)
]

not_off : (off b : Bool) → (off || not b) ≡ false → b ≡ true
not_off true b h = cc
not_off false true h = refl
not_off false false h = cc

picked :
    (b : Bool) (method : Bytes)
    → ((if b then method else get_method) ≡ method)
      ⊎ ((if b then method else get_method) ≡ get_method)
picked true method = inl refl
picked false method = inr refl

-- What is left of a request after a redirect can be sent: no body that was read from standard input is
-- kept. The method is kept or becomes GET, the body is kept or dropped, it is dropped where the headers
-- about it are, and a temporary redirect keeps both.
pub redirected_request-Redirected :
    {Multipart Descriptor : Type 0} (method : Bytes) (body : RequestBody Multipart Descriptor)
    (status : ℕ) {request : RedirectedRequest Multipart Descriptor}
    → is_redirect_status status ≡ true
    → redirected_request method body status ≡ ok request
    → Redirected method body status request
unfolding redirected_request is_redirect_status
redirected_request-Redirected method body status {request} h e =
    elim (Bool-cases (((status == 301) || (status == 302)) && bytes_eq method post_method)) [
      | inl posted ↦
          let q = ok_inj (rw posted at e) in
          let (arm, post) =
            &&-both ((status == 301) || (status == 302)) (bytes_eq method post_method) posted in
          rw (sym q) (record {
            replayable = no_body-replayable _ _;
            method_kept_or_get = inr refl;
            body_kept_or_dropped = inr refl;
            stripped_without_body = λ s. refl;
            temporary_kept = λ t. let (first, also) = temporary_others status t in cc;
          })
      | inr kept ↦ elim (Bool-cases (status == 303)) [
        | inl other ↦
            let q = ok_inj (rw (kept, other) at e) in
            rw (sym q) (record {
              replayable = no_body-replayable _ _;
              method_kept_or_get = picked (bytes_eq method head_method) method;
              body_kept_or_dropped = inr refl;
              stripped_without_body = λ s. refl;
              temporary_kept = λ t. let (first, also) = temporary_others status t in cc;
            })
        | inr same ↦ elim (Bool-cases (request_body_replayable body)) [
          | inl replayable ↦
              let arm =
                other_arms ((status == 301) || (status == 302)) (status == 303)
                  ((status == 307) || (status == 308)) h same in
              let q = ok_inj (rw (kept, same, arm, replayable) at e) in
              rw (sym q) (record {
                replayable = replayable;
                method_kept_or_get = inl refl;
                body_kept_or_dropped = inl refl;
                stripped_without_body = λ s. cc;
                temporary_kept = λ t. (refl, refl);
              })
          | inr stdin ↦
              let arm =
                other_arms ((status == 301) || (status == 302)) (status == 303)
                  ((status == 307) || (status == 308)) h same in
              let q = rw (kept, same, arm, stdin) at e in cc
        ]
      ]
    ]

module _ {Url : Type 0} (join : Bytes → Option Url) (scheme : Url → Bytes) where
  -- A redirect that is followed.
  pub record Followed (redirects : Option ℕ) (status : ℕ) (location : Option (Option Bytes))
      (redirect_count : ℕ) (url : Url) : Type 0 where
    pub redirect_status : is_redirect_status status ≡ true
    pub below_limit : redirect_count < redirect_limit redirects
    pub target : Bytes
    pub given : location ≡ some (some target)
    pub resolved : join target ≡ some url
    pub web : (scheme url ≡ http_scheme) ⊎ (scheme url ≡ https_scheme)

  joined_target-eq-ok :
      (location : Bytes) {url : Url}
      → joined_target join scheme location ≡ ok (some url)
      → (join location ≡ some url) × ((scheme url ≡ http_scheme) ⊎ (scheme url ≡ https_scheme))
  unfolding joined_target
  joined_target-eq-ok location {url} e = elim (Option-cases (join location)) [
    | inl none_joined ↦ let q = rw (none_joined, joined_target) at e in cc
    | inr (found, f) ↦
        elim (Bool-cases
          (bytes_eq (scheme found) http_scheme || bytes_eq (scheme found) https_scheme)) [
            | inl web ↦
                let q : found ≡ url = some_inj (ok_inj (rw (f, joined_target, web) at e)) in
                rw (sym q) (f, schemes (scheme found) web)
            | inr other ↦ let q = rw (f, joined_target, other) at e in cc
          ]
  ]

  located_target-eq-ok :
      (redirects : Option ℕ) (location : Option (Option Bytes)) (redirect_count : ℕ) {url : Url}
      → located_target join scheme redirects location redirect_count ≡ ok (some url)
      → (redirect_count < redirect_limit redirects)
        × (target : Bytes) × (location ≡ some (some target))
        × (join target ≡ some url)
        × ((scheme url ≡ http_scheme) ⊎ (scheme url ≡ https_scheme))
  unfolding located_target
  located_target-eq-ok redirects none redirect_count e = cc
  located_target-eq-ok redirects (some none) redirect_count e = cc
  located_target-eq-ok redirects (some (some target)) redirect_count {url} e =
      elim (Bool-cases (leb (redirect_limit redirects) redirect_count)) [
        | inl many ↦ let q = rw many at e in cc
        | inr few ↦
            let (joined, web) = joined_target-eq-ok target (rw few at e) in
            (leb→gt (redirect_limit redirects) redirect_count few, target, refl, joined, web)
      ]

  -- A redirect is followed only for a redirect's status, below the limit, and to what its location
  -- resolves to, over http or https.
  pub redirect_target-Followed :
      (redirects : Option ℕ) (status : ℕ) (location : Option (Option Bytes)) (redirect_count : ℕ)
      {url : Url}
      → redirect_target join scheme redirects status location redirect_count ≡ ok (some url)
      → Followed redirects status location redirect_count url
  unfolding redirect_target
  redirect_target-Followed redirects status location redirect_count {url} e =
      elim (Bool-cases (redirects_off redirects || not (is_redirect_status status))) [
        | inl off ↦ let q = rw off at e in cc
        | inr on ↦
            let (below, target, given, joined, web) =
              located_target-eq-ok redirects location redirect_count (rw on at e) in
            record {
              redirect_status = not_off (redirects_off redirects) (is_redirect_status status) on;
              below_limit = below;
              target = target;
              given = given;
              resolved = joined;
              web = web;
            }
      ]
