-- ===== src/Http/Retry/Tests.antt =====
-- src/http/retry.rs: a delay that doubles, and redirects of a form.
use fetch.Common.{
  ℕ, ◌+◌, ◌*◌, ◌^◌, ◌≤◌, ◌≡◌, refl, false, Option, none, some, [], ◌∷◌, Bytes, min, err,
}
use fetch.Common.Text.{bytes_eq}
use fetch.Http.Retry.{
  max_retry_delay, backoff, compute_delay, remaining_timeout, retry_delay_within_timeout,
  is_redirect_status, redirect_target, located_target, joined_target, RequestBody, stdin_source,
  bytes_source, grpc_json_stream, redirected_request, request_body_replayable,
  request_body_source_uses_stdin, post_method, get_method, https_scheme, stdin_not_replayable,
}
use fetch.Http.Retry.Delay.{backoff-eq-min, retry_delay_within_timeout-le}
use fetch.Http.Retry.Redirects.{
  Redirected, redirected_request-Redirected, Followed, redirect_target-Followed,
}

abbrev no_jitter : ℕ → ℕ
no_jitter delay = delay

compute_delay_third : compute_delay no_jitter 0 3 0 ≡ 8000000000
unfolding compute_delay backoff
compute_delay_third = refl

backoff-eq-min_example : backoff 4 5 ≡ min (5 * 2 ^ 4) max_retry_delay
backoff-eq-min_example = backoff-eq-min 3 5

retry_delay_within_timeout-le_example :
    (6 ≤ 9) × ((timeout : ℕ) → some 10 ≡ some timeout → 6 + 4 ≤ timeout)
unfolding retry_delay_within_timeout remaining_timeout
retry_delay_within_timeout-le_example = retry_delay_within_timeout-le 9 (some 10) 4 6 refl

-- A URL is its text, and each one is https.
abbrev join_text : Bytes → Option Bytes
join_text [] = none
join_text (c ∷ text) = some (c ∷ text)

abbrev https_only : Bytes → Bytes
https_only url = https_scheme

redirect_target-Followed_example :
    Followed join_text https_only none 301 (some (some (b'/' ∷ []))) 9 (b'/' ∷ [])
unfolding redirect_target located_target joined_target is_redirect_status bytes_eq
redirect_target-Followed_example =
    redirect_target-Followed join_text https_only none 301 (some (some (b'/' ∷ []))) 9 refl

abbrev form : RequestBody ℕ ℕ
form = some (record { source = bytes_source (b'x' ∷ []); content_type = none })

abbrev streamed : RequestBody ℕ ℕ
streamed = some (record { source = grpc_json_stream stdin_source 0; content_type = none })

redirected_stream : redirected_request get_method streamed 307 ≡ err stdin_not_replayable
unfolding redirected_request request_body_replayable request_body_source_uses_stdin bytes_eq
redirected_stream = refl

redirected_request-Redirected_example :
    Redirected post_method form 307
      (record { method = post_method; body = form; strip_entity_headers = false })
unfolding redirected_request request_body_replayable request_body_source_uses_stdin bytes_eq
    is_redirect_status
redirected_request-Redirected_example = redirected_request-Redirected post_method form 307 refl refl
