-- ===== src/Middleware/Server.antt =====
-- internal/http/server.go: the checks of readiness, and the order in which BuildServer puts the
-- middleware round the handler of events. Tracing and the metrics of requests pass every request
-- on, and are not modelled.
pub mod Guard
pub mod Answers
use tekton_events_relay.Prelude.{
  ℕ, ℤ, pos, negsuc, String, Bool, true, false, Option, none, some, List, [], ◌∷◌, Map, insert,
  text_at, is_empty, length, ◌==◌, ◌≡◌, refl, arith, if◌then◌else◌, nat_eq, is_some,
}
use tekton_events_relay.Errors.{Err, Result, ok, err, plain, wrap, error_text}
use tekton_events_relay.Domain.{Time}
use tekton_events_relay.Middleware.{
  Request, Reply, Response, replied, panicked, HttpHandler, http_error, panic_recovery, body_limit,
  request_logging, recovered,
}
use tekton_events_relay.Middleware.Auth.{AuthConfig, Crypto, auth_middleware}
use tekton_events_relay.Middleware.RateLimit.{Limiter, Table, rate_limit}

abbrev pub default_max_body_size : ℕ
default_max_body_size = 1048576

-- What a request meets of the world, and the limits of the configuration. `now` is the server's
-- clock at the request, and `fresh_id` the identifier that generateRequestID would make.
pub record Serving (L : Type 0) : Type 0 where
  pub crypto : Crypto
  pub auth : Option AuthConfig
  pub limiter : Limiter L
  pub limits_rate : Bool
  pub max_body_size : ℕ
  pub split_host : String → Option String
  pub now : Time
  pub fresh_id : String

abbrev pub body_size : {L : Type 0} → Serving L → ℕ
body_size s = if nat_eq s.max_body_size 0 then default_max_body_size else s.max_body_size

module _ {L W : Type 0} where
  -- Middleware that leaves the table alone.
  abbrev pub beside : HttpHandler W → HttpHandler (Table L × W)
  beside next r headers (entries, w) =
      let (response, w') = next r headers w in (response, (entries, w'))

  -- Steps 1 to 3: logging, the limit of the body, and the recovery of panics.
  unfoldable pub inner_chain : Serving L → HttpHandler W → HttpHandler W
  unfolding panic_recovery body_limit request_logging
  inner_chain s events =
      panic_recovery (body_limit (body_size s) (request_logging s.fresh_id events))

  -- Step 4.
  unfoldable pub limited_chain : Serving L → HttpHandler W → HttpHandler (Table L × W)
  unfolding inner_chain rate_limit
  limited_chain s events =
      if s.limits_rate
      then rate_limit s.limiter s.split_host s.now (inner_chain s events)
      else beside (inner_chain s events)

  abbrev pub guard_with :
      Time
      → HttpHandler (Table L × W)
      → Result (ℕ → HttpHandler (Table L × W) → HttpHandler (Table L × W))
      → Result (HttpHandler (Table L × W))
  guard_with now next (ok auth) = ok (auth now next)
  guard_with now next (err e) = err (wrap "build auth middleware: " e)

  abbrev pub guarded :
      Serving L → HttpHandler (Table L × W) → Option AuthConfig → Result (HttpHandler (Table L × W))
  unfolding auth_middleware
  guarded s next none = ok next
  guarded s next (some config) = guard_with s.now next (auth_middleware s.crypto config)

  -- Step 5: the handler that BuildServer mounts at /, or its error.
  unfoldable pub events_chain : Serving L → HttpHandler W → Result (HttpHandler (Table L × W))
  unfolding limited_chain
  events_chain s events = guarded s (limited_chain s events) s.auth

-- The readiness of /readyz. A check answers nil or an error.
abbrev pub check_names : String → List String → Option Err
check_names message [] = some (plain message)
check_names message (n ∷ ns) = none

unfoldable pub readiness_checks : List String → List String → List (Option Err)
readiness_checks handlers decoders =
    check_names "no handlers registered" handlers
    ∷ check_names "no decoders registered" decoders
    ∷ []

-- The status and the reason of the first check that fails.
unfoldable pub run_checks : List (Option Err) → ℕ × Option String
run_checks [] = (200, none)
run_checks (none ∷ rest) = run_checks rest
run_checks (some e ∷ rest) = (503, some (error_text e))
