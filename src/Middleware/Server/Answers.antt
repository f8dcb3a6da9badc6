-- ===== src/Middleware/Server/Answers.antt =====
-- internal/http/server.go: what the chain of middleware does to every request, whatever the handler
-- of events does.
use tekton_events_relay.Prelude.{
  ℕ, String, Bool, false, not, ◌&&◌, ◌||◌, some, List, [], ◌∷◌, Map, insert, lookup, text_at, ◌≡◌,
  inl, inr, refl, sym, ◌∙◌, ◌==◌, if◌then◌else◌, Bool-cases, lookup-insert, lookup-erase, ◌∙◌,
  is_empty,
}
use tekton_events_relay.Errors.{ok}
use tekton_events_relay.Middleware.{
  Request, Response, replied, panicked, HttpHandler, http_error, recovered, panic_recovery,
  body_limit, request_logging,
}
use tekton_events_relay.Middleware.Auth.{
  AuthConfig, auth_middleware, authenticate, validator_for, timestamp_fresh, tolerance_of,
}
use tekton_events_relay.Middleware.RateLimit.{Table}
use tekton_events_relay.Middleware.Server.{
  Serving, body_size, inner_chain, events_chain, guarded, limited_chain, readiness_checks,
  run_checks,
}

abbrev pub headers_of : Response → Map String
headers_of (replied reply) = reply.headers
headers_of (panicked headers) = headers

abbrev pub IsReplied : Response → Type 0
IsReplied (replied reply) = Unit
IsReplied (panicked headers) = ⊥

-- The handler leaves the identifier of the request in the headers, also when it panics.
abbrev pub KeepsId : {W : Type 0} → HttpHandler W → Type 0
KeepsId {W} events =
    (r : Request) (headers : Map String) (w : W)
    → lookup "X-Request-Id" (headers_of ((events r headers w).0)) ≡ lookup "X-Request-Id" headers

recovered-IsReplied : {W : Type 0} (o : Response × W) → IsReplied ((recovered o).0)
unfolding recovered
recovered-IsReplied (replied reply, w) = tt
recovered-IsReplied (panicked headers, w) = tt

recovered-id :
    {W : Type 0} (o : Response × W)
    → lookup "X-Request-Id" (headers_of ((recovered o).0))
      ≡ lookup "X-Request-Id" (headers_of (o.0))
unfolding http_error recovered
recovered-id (replied reply, w) = refl
recovered-id (panicked headers, w) =
    lookup-insert "X-Content-Type-Options" "X-Request-Id" "nosniff" _
    ∙ lookup-insert "Content-Type" "X-Request-Id" "text/plain; charset=utf-8" _
    ∙ lookup-erase "Content-Length" "X-Request-Id" headers

-- The identifier that requests without one are given.
abbrev pub id_of : {L : Type 0} → Serving L → Request → String
id_of s r =
    if text_at r.headers "X-Request-Id" == "" then s.fresh_id else text_at r.headers "X-Request-Id"

module _ {L W : Type 0} (s : Serving L) (events : HttpHandler W) where
  -- Whatever the handler behind does, also where it panics, the chain of recovery, body limit and
  -- logging replies, and the reply carries the request's identifier, if the handler leaves that
  -- header alone.
  pub inner_chain_replies :
      KeepsId events
      → (r : Request) (headers : Map String) (w : W)
      → IsReplied ((inner_chain s events r headers w).0)
        × (lookup "X-Request-Id" (headers_of ((inner_chain s events r headers w).0))
            ≡ some (id_of s r))
  unfolding inner_chain panic_recovery body_limit request_logging
  inner_chain_replies keeps r headers w =
      let seen : Request = record r {
        max_body = some (body_size s);
        request_id = some (id_of s r);
      } in
      let given : Map String = insert "X-Request-Id" (id_of s r) headers in
      (
        recovered-IsReplied (events seen given w),
        recovered-id (events seen given w)
            ∙ keeps seen given w
            ∙ lookup-insert "X-Request-Id" "X-Request-Id" (id_of s r) headers,
      )

  chain_is :
      (config : AuthConfig) (validate : Request → String → Bool)
      → s.auth ≡ some config
      → validator_for s.crypto config.auth_type ≡ some validate
      → events_chain s events ≡ ok (authenticate config s.now validate (limited_chain s events))
  unfolding events_chain guarded auth_middleware
  chain_is config validate a v = rw (a, v) refl

  refuses :
      (config : AuthConfig) (validate : Request → String → Bool) (now : ℕ)
      (next : HttpHandler (Table L × W)) (r : Request) (headers : Map String) (w : Table L × W)
      → validate r config.secret ≡ false
      → authenticate config now validate next r headers w
        ≡ (http_error 401 "Unauthorized" headers, w)
  unfolding authenticate
  refuses config validate now next r headers w bad =
      elim (Bool-cases
        (config.validate_timestamp && not (timestamp_fresh now (tolerance_of config) r))) [
          | inl late ↦ rw late refl
          | inr timely ↦ rw (timely, bad) refl
        ]

  -- A request that the validator refuses leaves the table of sources and the world alone.
  pub refused_request_changes_nothing :
      (config : AuthConfig) (validate : Request → String → Bool) (chain : HttpHandler (Table L × W))
      → s.auth ≡ some config
      → validator_for s.crypto config.auth_type ≡ some validate
      → events_chain s events ≡ ok chain
      → (r : Request) (headers : Map String) (w : Table L × W) → validate r config.secret ≡ false
      → chain r headers w ≡ (http_error 401 "Unauthorized" headers, w)
  refused_request_changes_nothing config validate chain a v e r headers w bad =
      let made : ok chain ≡ ok (authenticate config s.now validate (limited_chain s events)) =
        sym e ∙ chain_is config validate a v in
      let same : chain ≡ authenticate config s.now validate (limited_chain s events) = cc in
      rw same (refuses config validate s.now (limited_chain s events) r headers w bad)

-- The server is ready exactly when a handler and a decoder are registered.
pub readiness_lem :
    (handlers decoders : List String)
    → (run_checks (readiness_checks handlers decoders)).0
      ≡ (if is_empty handlers || is_empty decoders then 503 else 200)
unfolding run_checks readiness_checks
readiness_lem [] decoders = refl
readiness_lem (h ∷ hs) [] = refl
readiness_lem (h ∷ hs) (d ∷ ds) = refl
