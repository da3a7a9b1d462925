-- ===== src/Http/Retry/Delay.antt =====
-- src/http/retry.rs and src/duration.rs: how long a retry waits.
use native.Mathlib.Nat.{pow-suc}
use native.Mathlib.Decide.{dec_lt}
use fetch.Common.{
  gt→leb, ℕ, zero, suc, ◌+◌, ◌-◌, ◌*◌, ◌^◌, ◌≤◌, ◌<◌, ◌≡◌, refl, ap, ◌∙◌, sym, Option, none, some,
  min, lt→ltb, le→ltb, le→leb, some_inj, ok_inj, ok, err, >>=-eq-ok, arith,
}
use fetch.Http.Retry.{
  max_retry_delay, duration_max, backoff, compute_delay, remaining_timeout, min_timeout,
  for_connect, request_timed_out, retry_delay_within_timeout,
}

-- Whatever the jitter, no retry waits longer than the cap, nor shorter than the server asks, up to the
-- cap.
pub compute_delay-le :
    (jittered : ℕ → ℕ) (initial_delay attempt retry_after : ℕ)
    → (compute_delay jittered initial_delay attempt retry_after ≤ max_retry_delay)
      × (min retry_after max_retry_delay ≤ compute_delay jittered initial_delay attempt retry_after)
unfolding compute_delay
compute_delay-le jittered initial_delay attempt retry_after = (omega arith, omega arith)

backoff_over :
    (rounds delay : ℕ) → max_retry_delay < delay * 2 → backoff (suc rounds) delay ≡ max_retry_delay
unfolding backoff
backoff_over rounds delay h =
    rw (lt→ltb max_retry_delay (min (delay * 2) duration_max) (omega arith))

backoff_under :
    (rounds delay : ℕ)
    → delay * 2 ≤ max_retry_delay
    → backoff (suc rounds) delay ≡ backoff rounds (delay * 2)
unfolding backoff
backoff_under rounds delay h =
    let e : min (delay * 2) duration_max ≡ delay * 2 = omega arith in
    rw (e, le→ltb max_retry_delay (delay * 2) h)

power_pos : (n : ℕ) → 0 < 2 ^ n
power_pos zero = omega arith
power_pos (suc n) = omega (arith, power_pos n, pow-suc 2 n)

le-mul : (a b : ℕ) → 0 < b → a ≤ a * b
le-mul a zero h = absurd (omega arith)
le-mul a (suc b) h = omega arith

doubled_power : (delay n : ℕ) → delay * 2 * 2 ^ n ≡ delay * 2 ^ suc n
doubled_power delay n = omega (arith, ap (λ (t : ℕ). delay * t) (pow-suc 2 n))

backoff-zero : (delay : ℕ) → backoff 0 delay ≡ delay
unfolding backoff
backoff-zero delay = refl

-- After at least one attempt, the delay that the loop comes to is the first one doubled for each
-- attempt, up to the cap.
pub backoff-eq-min :
    (attempt delay : ℕ)
    → backoff (suc attempt) delay ≡ min (delay * 2 ^ suc attempt) max_retry_delay
backoff-eq-min zero delay = elim (dec_lt max_retry_delay (delay * 2)) [
  | yes over ↦ backoff_over 0 delay over ∙ omega arith
  | no under ↦ backoff_under 0 delay (omega arith) ∙ backoff-zero (delay * 2) ∙ omega arith
]
backoff-eq-min (suc attempt) delay =
    let p : delay * 2 * 2 ^ suc attempt ≡ delay * 2 ^ suc (suc attempt) =
      doubled_power delay (suc attempt) in
    elim (dec_lt max_retry_delay (delay * 2)) [
      | yes over ↦
          let q : delay * 2 ≤ delay * 2 * 2 ^ suc attempt =
            le-mul (delay * 2) (2 ^ suc attempt) (power_pos (suc attempt)) in
          backoff_over (suc attempt) delay over ∙ omega arith
      | no under ↦
          backoff_under (suc attempt) delay (omega arith)
          ∙ backoff-eq-min attempt (delay * 2)
          ∙ ap (λ (t : ℕ). min t max_retry_delay) p
    ]

remaining_timeout-eq-ok :
    (timeout elapsed : ℕ) {remaining : Option ℕ}
    → remaining_timeout (some timeout) elapsed ≡ ok remaining
    → (elapsed < timeout) × (remaining ≡ some (timeout - elapsed))
unfolding remaining_timeout
remaining_timeout-eq-ok timeout elapsed {remaining} h = elim (dec_lt elapsed timeout) [
  | yes left ↦
      let q = gt→leb timeout elapsed left in
      let e : ok (some (timeout - elapsed)) ≡ ok remaining = rw q at h in (left, cc)
  | no over ↦
      let q = le→leb timeout elapsed (omega arith) in
      let e : err (request_timed_out timeout) ≡ ok remaining = rw q at h in cc
]

-- Both timeouts hold for a connection: a budget that is given ends when the connection's timeout does
-- at the latest, and, with what has passed, when the request's does.
pub for_connect-le :
    (connect_timeout request_timeout : Option ℕ) (elapsed budget : ℕ)
    → for_connect connect_timeout request_timeout elapsed ≡ ok (some budget)
    → ((timeout : ℕ) → connect_timeout ≡ some timeout → budget ≤ timeout)
      × ((timeout : ℕ) → request_timeout ≡ some timeout → budget + elapsed ≤ timeout)
unfolding for_connect min_timeout remaining_timeout
for_connect-le none none elapsed budget h = cc
for_connect-le (some c) none elapsed budget h =
    let b : c ≡ budget = some_inj (ok_inj h) in
    (λ t e. let q : c ≡ t = some_inj e in omega arith, λ t e. cc)
for_connect-le none (some r) elapsed budget h =
    let (remaining, e, f) = >>=-eq-ok (remaining_timeout (some r) elapsed) _ h in
    let (left, q) = remaining_timeout-eq-ok r elapsed e in
    let b : some (r - elapsed) ≡ some budget = sym q ∙ ok_inj f in
    let c : r - elapsed ≡ budget = some_inj b in
    (λ t e. cc, λ t e. let d : r ≡ t = some_inj e in omega arith)
for_connect-le (some c) (some r) elapsed budget h =
    let (remaining, e, f) = >>=-eq-ok (remaining_timeout (some r) elapsed) _ h in
    let (left, q) = remaining_timeout-eq-ok r elapsed e in
    let b : min c (r - elapsed) ≡ budget = some_inj (ok_inj (rw q at f)) in
    (
      λ t e. let d : c ≡ t = some_inj e in omega arith,
      λ t e. let d : r ≡ t = some_inj e in omega arith,
    )

-- A retry that is let wait waits no longer than it asked to, and is over when the request times out at
-- the latest.
pub retry_delay_within_timeout-le :
    (delay : ℕ) (request_timeout : Option ℕ) (elapsed actual : ℕ)
    → retry_delay_within_timeout delay request_timeout elapsed ≡ ok actual
    → (actual ≤ delay)
      × ((timeout : ℕ) → request_timeout ≡ some timeout → actual + elapsed ≤ timeout)
unfolding retry_delay_within_timeout remaining_timeout
retry_delay_within_timeout-le delay none elapsed actual h =
    let e : delay ≡ actual = cc in (omega arith, λ t q. cc)
retry_delay_within_timeout-le delay (some r) elapsed actual h =
    let (remaining, e, f) = >>=-eq-ok (remaining_timeout (some r) elapsed) _ h in
    let (left, q) = remaining_timeout-eq-ok r elapsed e in
    let b : min delay (r - elapsed) ≡ actual = ok_inj (rw q at f) in
    (omega arith, λ t e. let d : r ≡ t = some_inj e in omega arith)
