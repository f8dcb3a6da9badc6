-- ===== src/Retry/Waits.antt =====
-- How long a retry waits.
use tekton_events_relay.Prelude.{
  ℕ, ◌+◌, ◌*◌, ◌/◌, ◌^◌, ◌≤◌, ◌<◌, ℤ, pos, negsuc, String, true, false, not, ◌&&◌, Option, some,
  ◌==◌, ◌≡◌, refl, arith, atoi, ltb, nat_eq, if◌then◌else◌,
}
use tekton_events_relay.Retry.{
  RetryPolicy, normalized, positive_or, default_max_attempts, Response, retry_after_delay,
  backoff_with_jitter, shifted, backoff, seconds_delay, capped, is_negative,
}

positive-positive_or : (d : ℕ) (z : ℤ) → 0 < d → 0 < positive_or d z
positive-positive_or d (pos n) h = ground arith
positive-positive_or d (negsuc n) h = h

-- Whatever is configured, a normalized policy makes at least one attempt, and its first wait is
-- positive and at most the ceiling.
pub normalized_bounds :
    (p : RetryPolicy)
    → let q = normalized p in (1 ≤ q.attempts) × (0 < q.initial) × (q.initial ≤ q.ceiling)
unfolding normalized
normalized_bounds p = ground (
  arith,
  positive-positive_or default_max_attempts p.max_attempts,
  positive-positive_or 250000000 p.initial_backoff,
)

-- A shift that stays in range is exact.
shifted_lem :
    (min_wait max_wait attempt : ℕ)
    → 0 < min_wait * 2 ^ attempt
    → min_wait * 2 ^ attempt < 2 ^ 63
    → max_wait < 2 ^ 63
    → shifted min_wait max_wait attempt
      ≡ (if ltb max_wait (min_wait * 2 ^ attempt) then max_wait else min_wait * 2 ^ attempt)
shifted_lem min_wait max_wait attempt lo hi top = ground arith

shifted_bound :
    (min_wait max_wait attempt : ℕ)
    → max_wait < 2 ^ 63
    → shifted min_wait max_wait attempt ≤ max_wait
shifted_bound min_wait max_wait attempt top = ground arith

capped_bound : (d max_wait : ℕ) → d < 2 ^ 63 → max_wait < 2 ^ 63 → capped d max_wait ≤ max_wait
capped_bound d max_wait small top = ground arith

half_below : (d x : ℕ) → d / 2 ≤ d / 2 + x
half_below d x = ground arith

-- The exponential wait is never above the ceiling, at any attempt and whatever is drawn, also
-- where the shift overflows.
pub backoff_with_jitter_bound :
    (rand : ℕ → ℕ) (min_wait max_wait attempt : ℕ)
    → ((n : ℕ) → 0 < n → rand n < n)
    → max_wait < 2 ^ 63
    → backoff_with_jitter rand min_wait max_wait attempt ≤ max_wait
unfolding backoff_with_jitter
backoff_with_jitter_bound rand min_wait max_wait attempt draws top =
    let d = shifted min_wait max_wait attempt in
    let drawn = draws (d / 2 + 1) (ground arith) in
    let bound = shifted_bound min_wait max_wait attempt top in ground (arith, drawn, bound)

-- Where the doubled wait is positive and fits an int64, the wait is at least half of it or of the
-- ceiling, whichever is smaller.
pub backoff_with_jitter_doubles :
    (rand : ℕ → ℕ) (min_wait max_wait attempt : ℕ)
    → 0 < min_wait * 2 ^ attempt
    → min_wait * 2 ^ attempt < 2 ^ 63
    → max_wait < 2 ^ 63
    → (if ltb max_wait (min_wait * 2 ^ attempt) then max_wait else min_wait * 2 ^ attempt) / 2
      ≤ backoff_with_jitter rand min_wait max_wait attempt
unfolding backoff_with_jitter
backoff_with_jitter_doubles rand min_wait max_wait attempt lo hi top =
    rw (shifted_lem min_wait max_wait attempt lo hi top) (half_below _ _)

seconds_lem :
    (max_wait secs : ℕ)
    → max_wait < 2 ^ 63
    → secs < 9223372037
    → seconds_delay max_wait secs
      ≡ (if ltb max_wait (secs * 1000000000) then max_wait else secs * 1000000000)
seconds_lem max_wait secs top small = ground arith

seconds_overflow :
    (max_wait secs : ℕ)
    → max_wait < 2 ^ 63
    → 9223372037 ≤ secs
    → secs < 18446744074
    → is_negative (seconds_delay max_wait secs) ≡ true
seconds_overflow max_wait secs top lo hi = ground arith

-- A response that asks for a number of seconds.
pub record AsksFor (secs : ℕ) (resp : Response) : Type 0 where
  pub told : (not (nat_eq resp.status_code 429) && not (nat_eq resp.status_code 503)) ≡ false
  pub present : (resp.retry_after == "") ≡ false
  pub read : atoi resp.retry_after ≡ some (pos secs)

module _ (until : String → Option ℕ) (rand : ℕ → ℕ) (min_wait max_wait attempt secs : ℕ)
    (resp : Response) (asks : AsksFor secs resp) (top : max_wait < 2 ^ 63) where
  delay-AsksFor : retry_after_delay until (some resp) max_wait ≡ some (seconds_delay max_wait secs)
  unfolding retry_after_delay
  delay-AsksFor = rw asks.told (rw asks.present (rw asks.read refl))

  backoff-AsksFor :
      backoff until rand min_wait max_wait attempt (some resp) ≡ seconds_delay max_wait secs
  unfolding backoff
  backoff-AsksFor = rw delay-AsksFor refl

  -- A 429 or 503 response whose Retry-After is a number of seconds that fits an int64 of
  -- nanoseconds is obeyed: the retry waits that long, or for the ceiling where that is less.
  pub backoff_obeys :
      secs < 9223372037
      → backoff until rand min_wait max_wait attempt (some resp)
        ≡ (if ltb max_wait (secs * 1000000000) then max_wait else secs * 1000000000)
  backoff_obeys small = rw backoff-AsksFor (seconds_lem max_wait secs top small)

  -- A number of seconds from 9223372037 up to 18446744073 overflows: the wait is negative, so the
  -- retry comes at once, where the response asked for the longest wait.
  pub backoff_overflows :
      9223372037 ≤ secs
      → secs < 18446744074
      → is_negative (backoff until rand min_wait max_wait attempt (some resp)) ≡ true
  backoff_overflows lo hi = rw backoff-AsksFor (seconds_overflow max_wait secs top lo hi)
