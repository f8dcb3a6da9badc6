-- ===== src/Middleware/Auth/Window.antt =====
-- timestampFresh of internal/http/middleware/auth.go as a window of time.
use tekton_events_relay.Prelude.{
  ℕ, suc, ◌+◌, ◌*◌, ◌^◌, ◌<◌, ◌≤◌, ℤ, pos, negsuc, Bool, true, ◌&&◌, ◌||◌, some, ◌≡◌, ◌∙◌, arith,
  atoi, leb, ltb, text_at, ◌==◌, eq_iff, Bool-cases, inl, inr, none,
}
use tekton_events_relay.Middleware.{Request}
use tekton_events_relay.Middleware.Auth.{
  since, magnitude, within, fresh_at, timestamp_fresh, timestamp_header, second, unix_to_internal,
}

-- No more than `tolerance` before `now` or after it; or 2 ^ 63 nanoseconds after it and more, as
-- long as the seconds do not wrap.
abbrev pub accepted_at : ℕ → ℕ → ℤ → Bool
accepted_at now tolerance (pos s) =
    (leb now (s * second + tolerance) && leb (s * second) (now + tolerance))
    || (leb (now + 2 ^ 63) (s * second) && ltb (s + unix_to_internal) (2 ^ 63))
accepted_at now tolerance (negsuc n) = leb (now + suc n * second) tolerance

fresh_at_window :
    (now tolerance : ℕ) (secs : ℤ)
    → now < 2 ^ 63
    → tolerance + 1 < 2 ^ 63
    → within (magnitude (since now secs)) tolerance ≡ accepted_at now tolerance secs
unfolding since magnitude
fresh_at_window now tolerance (pos s) small t = ground arith
fresh_at_window now tolerance (negsuc n) small t = ground arith

-- On a timestamp that is a number, the test with its int64 arithmetic accepts exactly those at
-- most the tolerance before or after now, and those 2 ^ 63 nanoseconds or more after it whose
-- seconds do not wrap. Conditions: now and the tolerance fit an int64 of nanoseconds.
pub timestamp_fresh_window :
    (now tolerance : ℕ) (secs : ℤ) (r : Request)
    → now < 2 ^ 63
    → tolerance + 1 < 2 ^ 63
    → atoi (text_at r.headers timestamp_header) ≡ some secs
    → timestamp_fresh now tolerance r ≡ accepted_at now tolerance secs
unfolding timestamp_fresh atoi fresh_at magnitude
timestamp_fresh_window now tolerance secs r small t h =
    elim (Bool-cases (text_at r.headers timestamp_header == "")) [
      | inl e ↦ absurd (
          let empty : text_at r.headers timestamp_header ≡ "" =
            ground (arith, eq_iff (text_at r.headers timestamp_header) "") in
          let bad : none ≡ some secs = rw empty at h in cc)
      | inr e ↦ rw (e, h) (fresh_at_window now tolerance secs small t)
    ]

-- A timestamp more than 292 years after the clock is accepted at every tolerance.
pub far_future_is_fresh :
    (now tolerance s : ℕ) (r : Request)
    → now < 2 ^ 63
    → tolerance + 1 < 2 ^ 63
    → now + 2 ^ 63 ≤ s * second
    → s + unix_to_internal < 2 ^ 63
    → atoi (text_at r.headers timestamp_header) ≡ some (pos s)
    → timestamp_fresh now tolerance r ≡ true
far_future_is_fresh now tolerance s r small t far room h =
    timestamp_fresh_window now tolerance (pos s) r small t h ∙ ground arith
