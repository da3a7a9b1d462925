-- ===== src/Http/Retry.antt =====
-- src/http/retry.rs and src/duration.rs: when a request is sent again, and what a redirect makes of it.
-- A `Duration` is its number of nanoseconds, and an `Instant` enters as the time that has passed since.
-- The random jitter, a computation on floating-point numbers, is a function that the caller gives.
pub mod Delay
pub mod Redirects
mod Tests
use fetch.Common.{
  ℕ, zero, suc, ◌+◌, ◌-◌, ◌*◌, ◌^◌, Bool, true, false, not, ◌&&◌, ◌||◌, Option, none, some, List,
  [], ◌∷◌, Bytes, min, max, ltb, leb, ◌==◌, if◌then◌else◌, Result, ok, err, ◌>>=◌,
}
use fetch.Common.Text.{bytes_eq}
use fetch.Duration.{nanos_per_second}

abbrev pub max_retry_delay : ℕ
max_retry_delay = 30 * nanos_per_second

-- `Duration::MAX`
abbrev pub duration_max : ℕ
duration_max = (2 ^ 64 - 1) * nanos_per_second + 999999999

-- The errors that the source tells apart by their text.
pub data RetryError : Type 0 where
  request_timed_out : ℕ → RetryError
  stdin_not_replayable : RetryError
  too_many_attempts : RetryError
  too_many_redirects : ℕ → RetryError
  invalid_location : RetryError
  unsupported_scheme : Bytes → RetryError

-- `Duration::saturating_mul`
abbrev pub saturating_mul : ℕ → ℕ → ℕ
saturating_mul d n = min (d * n) duration_max

-- The loop of `compute_delay`, with the rounds that are left.
pub backoff : ℕ → ℕ → ℕ
backoff zero delay = delay
backoff (suc rounds) delay =
    let doubled = saturating_mul delay 2 in
    let more = backoff rounds doubled in
    if ltb max_retry_delay doubled then max_retry_delay else more

pub compute_delay : (ℕ → ℕ) → ℕ → ℕ → ℕ → ℕ
compute_delay jittered initial_delay attempt retry_after =
    let start = if initial_delay == 0 then nanos_per_second else initial_delay in
    max (min (jittered (backoff attempt start)) max_retry_delay) (min retry_after max_retry_delay)

-- `remaining_timeout`, when `elapsed` has passed.
pub remaining_timeout : Option ℕ → ℕ → Result RetryError (Option ℕ)
remaining_timeout none elapsed = ok none
remaining_timeout (some timeout) elapsed =
    if leb timeout elapsed then err (request_timed_out timeout) else ok (some (timeout - elapsed))

pub min_timeout : Option ℕ → Option ℕ → Option ℕ
min_timeout (some left) (some right) = some (min left right)
min_timeout (some left) none = some left
min_timeout none right = right

-- `TimeoutBudget::for_connect`, the timeout of the new budget.
pub for_connect : Option ℕ → Option ℕ → ℕ → Result RetryError (Option ℕ)
for_connect connect_timeout request_timeout elapsed = do
  request_remaining ← remaining_timeout request_timeout elapsed
  ok (min_timeout connect_timeout request_remaining)

abbrev pub delay_within : ℕ → Option ℕ → ℕ
delay_within delay none = delay
delay_within delay (some remaining) = min delay remaining

pub retry_delay_within_timeout : ℕ → Option ℕ → ℕ → Result RetryError ℕ
retry_delay_within_timeout delay request_timeout elapsed = do
  remaining ← remaining_timeout request_timeout elapsed
  ok (delay_within delay remaining)

-- `timeout_error`, which its callers ask for where there is a timeout.
abbrev pub timeout_error : Option ℕ → RetryError
timeout_error none = request_timed_out 0
timeout_error (some timeout) = request_timed_out timeout

pub ensure_retry_delay_completed : ℕ → ℕ → Option ℕ → ℕ → Result RetryError (Unit {0})
ensure_retry_delay_completed requested_delay actual_delay request_timeout elapsed =
    if ltb actual_delay requested_delay
    then err (timeout_error request_timeout)
    else (remaining_timeout request_timeout elapsed >>= λ remaining. ok tt)

-- `usize::checked_add`, where `usize` has 64 bits.
pub total_attempts_for_retry : ℕ → Result RetryError ℕ
total_attempts_for_retry retry_count =
    if ltb (retry_count + 1) (2 ^ 64) then ok (retry_count + 1) else err too_many_attempts

pub should_retry_status : ℕ → Bool
should_retry_status status =
    ((status == 429) || (status == 502)) || ((status == 503) || (status == 504))

pub is_redirect_status : ℕ → Bool
is_redirect_status status =
    (((status == 301) || (status == 302)) || (status == 303))
    || ((status == 307) || (status == 308))

-- "GET", "POST" and "HEAD": a method is its name.
abbrev pub get_method : Bytes
get_method = b'G' ∷ b'E' ∷ b'T' ∷ []

abbrev pub post_method : Bytes
post_method = b'P' ∷ b'O' ∷ b'S' ∷ b'T' ∷ []

abbrev pub head_method : Bytes
head_method = b'H' ∷ b'E' ∷ b'A' ∷ b'D' ∷ []

-- "http" and "https"
abbrev pub http_scheme : Bytes
http_scheme = b'h' ∷ b't' ∷ b't' ∷ b'p' ∷ []

abbrev pub https_scheme : Bytes
https_scheme = b'h' ∷ b't' ∷ b't' ∷ b'p' ∷ b's' ∷ []

abbrev pub redirect_limit : Option ℕ → ℕ
redirect_limit none = 10
redirect_limit (some redirects) = redirects

abbrev pub redirects_off : Option ℕ → Bool
redirects_off none = false
redirects_off (some redirects) = redirects == 0

-- `redirect_target`: `location` is the header, `none` in it a value that is not text, and `join` and
-- `scheme` are the URL library's.
module _ {Url : Type 0} (join : Bytes → Option Url) (scheme : Url → Bytes) where
  pub joined_target : Bytes → Result RetryError (Option Url)
  joined_target location = elim (join location) [
    | none ↦ err invalid_location
    | some url ↦
        if bytes_eq (scheme url) http_scheme || bytes_eq (scheme url) https_scheme
        then ok (some url)
        else err (unsupported_scheme (scheme url))
  ]

  pub located_target : Option ℕ → Option (Option Bytes) → ℕ → Result RetryError (Option Url)
  located_target redirects none redirect_count = ok none
  located_target redirects (some none) redirect_count = err invalid_location
  located_target redirects (some (some location)) redirect_count =
      if leb (redirect_limit redirects) redirect_count
      then err (too_many_redirects (redirect_limit redirects))
      else joined_target location

  pub redirect_target : Option ℕ → ℕ → Option (Option Bytes) → ℕ → Result RetryError (Option Url)
  redirect_target redirects status location redirect_count =
      if redirects_off redirects || not (is_redirect_status status)
      then ok none
      else located_target redirects location redirect_count

-- src/http/request.rs: where the bytes of a body come from; forms and message descriptors are opaque.
pub data RequestBodySource (Multipart Descriptor : Type 0) : Type 0 where
  bytes_source : Bytes → RequestBodySource Multipart Descriptor
  file_source : Bytes → ℕ → RequestBodySource Multipart Descriptor
  stdin_source : RequestBodySource Multipart Descriptor
  multipart_source : Multipart → RequestBodySource Multipart Descriptor
  grpc_json_stream :
      RequestBodySource Multipart Descriptor → Descriptor → RequestBodySource Multipart Descriptor

pub record RequestBodyPayload (Multipart Descriptor : Type 0) : Type 0 where
  pub source : RequestBodySource Multipart Descriptor
  pub content_type : Option Bytes

abbrev pub RequestBody : Type 0 → Type 0 → Type 0
RequestBody Multipart Descriptor = Option (RequestBodyPayload Multipart Descriptor)

pub record RedirectedRequest (Multipart Descriptor : Type 0) : Type 0 where
  pub method : Bytes
  pub body : RequestBody Multipart Descriptor
  pub strip_entity_headers : Bool

module _ {Multipart Descriptor : Type 0} where
  pub request_body_source_uses_stdin : RequestBodySource Multipart Descriptor → Bool
  request_body_source_uses_stdin (bytes_source bytes) = false
  request_body_source_uses_stdin (file_source path len) = false
  request_body_source_uses_stdin stdin_source = true
  request_body_source_uses_stdin (multipart_source form) = false
  request_body_source_uses_stdin (grpc_json_stream source desc) =
      request_body_source_uses_stdin source

  pub request_body_replayable : RequestBody Multipart Descriptor → Bool
  request_body_replayable none = true
  request_body_replayable (some body) = not (request_body_source_uses_stdin body.source)

  -- The arms of the `match` in their order.
  pub redirected_request :
      Bytes
      → RequestBody Multipart Descriptor
      → ℕ
      → Result RetryError (RedirectedRequest Multipart Descriptor)
  redirected_request method body status =
      if ((status == 301) || (status == 302)) && bytes_eq method post_method
      then ok (record { method = get_method; body = none; strip_entity_headers = true })
      else if status == 303
      then ok (record {
        method = if bytes_eq method head_method then method else get_method;
        body = none;
        strip_entity_headers = true;
      })
      else if (((status == 301) || (status == 302)) || ((status == 307) || (status == 308)))
          && not (request_body_replayable body)
      then err stdin_not_replayable
      else ok (record { method = method; body = body; strip_entity_headers = false })
