-- ===== src/Middleware/Server/Guard.antt =====
-- internal/http/middleware/auth.go in front of internal/http/server.go: which requests pass the
-- authentication, and what a request that does not pass can change.
use tekton_events_relay.Prelude.{
  ℕ, ◌<◌, ◌+◌, ◌^◌, ℤ, String, true, Option, none, some, Map, insert, text_at, ◌≡◌, ◌⊎◌, inl, inr,
  refl, sym, ◌∙◌, ap, arith, ◌<>◌, eq_iff, Bool-cases, lookup-insert, atoi,
}
use tekton_events_relay.Errors.{ok}
use tekton_events_relay.Middleware.{Request, HttpHandler, http_error}
use tekton_events_relay.Middleware.Auth.{
  AuthConfig, Crypto, auth_middleware, authenticate, validator_for, validate_hmac, signed_by,
  timestamp_fresh, tolerance_of, timestamp_header, auth_type_hmac_sha256,
}
use tekton_events_relay.Middleware.Auth.Window.{accepted_at, timestamp_fresh_window}

-- What validateHMAC asks of a request.
abbrev pub Signed : Crypto → String → Request → Type 0
Signed c secret r =
    (body : String) × (r.body ≡ some body)
    × (text_at r.headers "X-Hub-Signature-256" ≡ "sha256=" <> c.mac secret body)

signed_by_body :
    (c : Crypto) (secret signature : String) (b : Option String)
    → signed_by c secret signature b ≡ true
    → (body : String) × (b ≡ some body) × (signature ≡ "sha256=" <> c.mac secret body)
signed_by_body c secret signature none h = absurd (cc)
signed_by_body c secret signature (some body) h =
    (body, refl, (eq_iff signature ("sha256=" <> c.mac secret body)).0 h)

validate_hmac-Signed :
    (c : Crypto) (r : Request) (secret : String)
    → validate_hmac c r secret ≡ true
    → Signed c secret r
unfolding validate_hmac
validate_hmac-Signed c r secret h =
    signed_by_body c secret (text_at r.headers "X-Hub-Signature-256") r.body (ground arith)

-- A request whose signature holds, sent again with the text `stamp` as its timestamp.
abbrev pub restamped : String → Request → Request
restamped stamp r = record r { headers = insert timestamp_header stamp r.headers }

validate_hmac-restamped :
    (c : Crypto) (stamp secret : String) (r : Request)
    → validate_hmac c (restamped stamp r) secret ≡ validate_hmac c r secret
unfolding validate_hmac
validate_hmac-restamped c stamp secret r =
    rw (lookup-insert timestamp_header "X-Hub-Signature-256" stamp r.headers) refl

module _ {W : Type 0} (c : Crypto) (config : AuthConfig) where
  auth_middleware-hmac :
      config.auth_type ≡ auth_type_hmac_sha256
      → auth_middleware {W = W} c config ≡ ok (λ now. authenticate config now (validate_hmac c))
  unfolding auth_middleware validator_for
  auth_middleware-hmac t = rw t refl

  guards :
      config.validate_timestamp ≡ true
      → (now : ℕ) (next : HttpHandler W) (r : Request) (headers : Map String) (w : W)
      → (authenticate config now (validate_hmac c) next r headers w
          ≡ (http_error 401 "Unauthorized" headers, w))
        ⊎ (Signed c config.secret r
            × (timestamp_fresh now (tolerance_of config) r ≡ true)
            × (authenticate config now (validate_hmac c) next r headers w ≡ next r headers w))
  unfolding authenticate
  guards v now next r headers w = elim (Bool-cases (timestamp_fresh now (tolerance_of config) r)) [
    | inr late ↦ inl (rw (v, late) refl)
    | inl fresh ↦ elim (Bool-cases (validate_hmac c r config.secret)) [
      | inr bad ↦ inl (rw (v, fresh, bad) refl)
      | inl good ↦
          inr (validate_hmac-Signed c r config.secret good, fresh, rw (v, fresh, good) refl)
    ]
  ]

  -- Behind the middleware that is built for HMAC with timestamps, each request is either answered
  -- 401 with nothing called, or it carries the signature of its body, its timestamp is fresh and
  -- the handler behind answers it.
  pub auth_middleware_guards :
      (m : ℕ → HttpHandler W → HttpHandler W)
      → auth_middleware c config ≡ ok m
      → config.auth_type ≡ auth_type_hmac_sha256
      → config.validate_timestamp ≡ true
      → (now : ℕ) (next : HttpHandler W) (r : Request) (headers : Map String) (w : W)
      → (m now next r headers w ≡ (http_error 401 "Unauthorized" headers, w))
        ⊎ (Signed c config.secret r
            × (timestamp_fresh now (tolerance_of config) r ≡ true)
            × (m now next r headers w ≡ next r headers w))
  auth_middleware_guards m e t v now next r headers w =
      let built_as : ok m ≡ ok (λ now. authenticate config now (validate_hmac c)) =
        sym e ∙ auth_middleware-hmac t in
      let same : m ≡ (λ now. authenticate config now (validate_hmac c)) = cc in
      rw same (guards v now next r headers w)

  -- A request whose body is signed, sent again with any timestamp that is accepted at that time,
  -- reaches the handler: the signature does not cover the timestamp.
  pub restamped_request_passes :
      (now : ℕ) (stamp : String) (secs : ℤ) (next : HttpHandler W) (r : Request)
      (headers : Map String) (w : W)
      → now < 2 ^ 63
      → tolerance_of config + 1 < 2 ^ 63
      → validate_hmac c r config.secret ≡ true
      → atoi stamp ≡ some secs
      → accepted_at now (tolerance_of config) secs ≡ true
      → authenticate config now (validate_hmac c) next (restamped stamp r) headers w
        ≡ next (restamped stamp r) headers w
  unfolding authenticate
  restamped_request_passes now stamp secs next r headers w small t signed parses inside =
      let read : text_at (restamped stamp r).headers timestamp_header ≡ stamp =
        rw (lookup-insert timestamp_header timestamp_header stamp r.headers) refl in
      let fresh : timestamp_fresh now (tolerance_of config) (restamped stamp r) ≡ true =
        timestamp_fresh_window now (tolerance_of config) secs (restamped stamp r) small t
          (ap atoi read ∙ parses)
        ∙ inside in
      rw (fresh, validate_hmac-restamped c stamp config.secret r, signed) (ground arith)
