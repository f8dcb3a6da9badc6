-- ===== src/Retry.antt =====
-- internal/httpx/retry.go: when an outbound request is retried, and after what wait.
pub mod Waits
use tekton_events_relay.Prelude.{
  ℕ, ◌+◌, ◌*◌, ◌/◌, ◌%◌, ◌^◌, ◌-◌, ℤ, pos, negsuc, String, Bool, true, false, ◌&&◌, ◌||◌, not,
  Option, none, some, ◌==◌, ◌<>◌, or_else, atoi, ltb, leb, nat_eq, if◌then◌else◌,
}
use tekton_events_relay.Errors.{Err, wrap, retryable, Result, ok, err}

-- RetryPolicy as it is configured; durations are in nanoseconds.
pub record RetryPolicy : Type 0 where
  pub max_attempts : ℤ
  pub initial_backoff : ℤ
  pub max_backoff : ℤ

-- The policy that is normalized, where no field is negative.
pub record NormalPolicy : Type 0 where
  pub attempts : ℕ
  pub initial : ℕ
  pub ceiling : ℕ

abbrev pub default_max_attempts : ℕ
default_max_attempts = 4

abbrev pub default_initial_backoff : ℕ
default_initial_backoff = 250 * 1000000

abbrev pub default_max_backoff : ℕ
default_max_backoff = 30 * 1000000000

abbrev pub positive_or : ℕ → ℤ → ℕ
positive_or default (pos n) = if nat_eq n 0 then default else n
positive_or default (negsuc n) = default

-- normalized
unfoldable pub normalized : RetryPolicy → NormalPolicy
normalized p =
    let initial = positive_or default_initial_backoff p.initial_backoff in
    let ceiling = positive_or default_max_backoff p.max_backoff in
    record {
      attempts = positive_or default_max_attempts p.max_attempts;
      initial = initial;
      ceiling = if ltb ceiling initial then initial else ceiling;
    }

-- An int64 is its two's complement here, a number below 2 ^ 64: the negative ones are the upper
-- half.
abbrev pub is_negative : ℕ → Bool
is_negative d = leb (2 ^ 63) d

abbrev pub exceeds : ℕ → ℕ → Bool
exceeds d bound = ltb ((bound + 2 ^ 63) % 2 ^ 64) ((d + 2 ^ 63) % 2 ^ 64)

abbrev pub capped : ℕ → ℕ → ℕ
capped d max_wait = if exceeds d max_wait then max_wait else d

-- What Backoff and CheckRetry read of a response.
pub record Response : Type 0 where
  pub status_code : ℕ
  pub retry_after : String

-- The delay that the seconds of the header ask for: `time.Duration(secs) * time.Second`, capped.
abbrev pub seconds_delay : ℕ → ℕ → ℕ
seconds_delay max_wait secs = capped (secs * 1000000000 % 2 ^ 64) max_wait

abbrev pub date_delay : Option ℕ → ℕ → Option ℕ
date_delay none max_wait = none
date_delay (some d) max_wait = some (capped (if is_negative d then 0 else d) max_wait)

abbrev pub header_delay : Option ℤ → Option ℕ → ℕ → Option ℕ
header_delay (some (pos secs)) until max_wait = some (seconds_delay max_wait secs)
header_delay (some (negsuc n)) until max_wait = date_delay until max_wait
header_delay none until max_wait = date_delay until max_wait

-- retryAfterDelay; `until` is the time until the date of a header that http.ParseTime reads.
unfoldable pub retry_after_delay : (String → Option ℕ) → Option Response → ℕ → Option ℕ
unfolding atoi
retry_after_delay until none max_wait = none
retry_after_delay until (some resp) max_wait =
    if not (nat_eq resp.status_code 429) && not (nat_eq resp.status_code 503)
    then none
    else if resp.retry_after == ""
    then none
    else header_delay (atoi resp.retry_after) (until resp.retry_after) max_wait

-- The delay of backoffWithJitter before the jitter: a shift of an int64 drops the high bits.
abbrev pub shifted : ℕ → ℕ → ℕ → ℕ
shifted min_wait max_wait attempt =
    let delay = min_wait * 2 ^ attempt % 2 ^ 64 in
    if nat_eq delay 0 || is_negative delay || exceeds delay max_wait then max_wait else delay

-- backoffWithJitter; `rand n` is rand.N(n).
unfoldable pub backoff_with_jitter : (ℕ → ℕ) → ℕ → ℕ → ℕ → ℕ
backoff_with_jitter rand min_wait max_wait attempt =
    let half = shifted min_wait max_wait attempt / 2 in half + rand (half + 1)

-- rc.Backoff
unfoldable pub backoff : (String → Option ℕ) → (ℕ → ℕ) → ℕ → ℕ → ℕ → Option Response → ℕ
unfolding retry_after_delay backoff_with_jitter
backoff until rand min_wait max_wait attempt resp =
    or_else (retry_after_delay until resp max_wait)
      (backoff_with_jitter rand min_wait max_wait attempt)

-- rc.CheckRetry; `failed` says that the request failed with an error.
unfoldable pub check_retry : Bool → Option Response → Bool
check_retry true resp = true
check_retry false none = false
check_retry false (some resp) =
    nat_eq resp.status_code 408
    || nat_eq resp.status_code 429
    || (leb 500 resp.status_code && ltb resp.status_code 600)

-- retryReason
unfoldable pub retry_reason : Option Response → String
retry_reason none = "network_error"
retry_reason (some resp) =
    if nat_eq resp.status_code 429
    then "rate_limit"
    else if nat_eq resp.status_code 408
    then "timeout"
    else if leb 500 resp.status_code
    then "server_error"
    else "other"
