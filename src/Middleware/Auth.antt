-- ===== src/Middleware/Auth.antt =====
-- internal/http/middleware/auth.go: the check of a request's signature or token, and of its
-- timestamp.
pub mod Bearer
pub mod Window
use tekton_events_relay.Prelude.{
  ℕ, zero, suc, ◌+◌, ◌-◌, ◌*◌, ◌^◌, ℤ, pos, negsuc, positive_or, String, Bool, true, false, not,
  ◌&&◌, Option, none, some, Map, text_at, ◌==◌, ◌<>◌, leb, ltb, nat_eq, min, atoi, if◌then◌else◌,
}
use Prim.Native.Char.{Char, code}
use tekton_events_relay.Errors.{Result, ok, err, plain}
use tekton_events_relay.Middleware.{Request, HttpHandler, http_error}

abbrev pub timestamp_header : String
timestamp_header = "X-Webhook-Timestamp"

abbrev pub second : ℕ
second = 1000000000

abbrev pub default_timestamp_tolerance : ℕ
default_timestamp_tolerance = 300000000000

abbrev pub auth_type_hmac_sha256 : String
auth_type_hmac_sha256 = "hmac-sha256"

abbrev pub auth_type_bearer : String
auth_type_bearer = "bearer"

pub record AuthConfig : Type 0 where
  pub auth_type : String
  pub secret : String
  pub validate_timestamp : Bool
  pub timestamp_tolerance : ℤ

-- What auth.go calls: `mac` is the hexadecimal HMAC-SHA256 of a body under a secret, and
-- `equal_fold` is strings.EqualFold.
pub record Crypto : Type 0 where
  pub mac : String → String → String
  pub equal_fold : String → String → Bool

-- The seconds from the zero time of package time to the Unix epoch.
abbrev pub unix_to_internal : ℕ
unix_to_internal = 62135596800

-- time.Since(time.Unix(secs, 0)) at `now` nanoseconds of Unix time. A duration is an int64, and Sub
-- stops at its ends; a time so late that its int64 of seconds wraps counts as early.
unfoldable pub since : ℕ → ℤ → ℤ
since now (pos s) =
    if ltb (s + unix_to_internal) (2 ^ 63)
    then (if leb (s * second) now
        then pos (min (now - s * second) (2 ^ 63 - 1))
        else negsuc (min (s * second - now) (2 ^ 63) - 1))
    else pos (2 ^ 63 - 1)
since now (negsuc n) = pos (min (now + suc n * second) (2 ^ 63 - 1))

-- `if delta < 0 { delta = -delta }`: the least int64 is its own negative.
unfoldable pub magnitude : ℤ → ℤ
magnitude (pos d) = pos d
magnitude (negsuc k) = if ltb (suc k) (2 ^ 63) then pos (suc k) else negsuc k

abbrev pub within : ℤ → ℕ → Bool
within (pos d) tolerance = leb d tolerance
within (negsuc k) tolerance = true

abbrev pub fresh_at : ℕ → ℕ → Option ℤ → Bool
unfolding since magnitude
fresh_at now tolerance none = false
fresh_at now tolerance (some secs) = within (magnitude (since now secs)) tolerance

unfoldable pub timestamp_fresh : ℕ → ℕ → Request → Bool
timestamp_fresh now tolerance r =
    let raw = text_at r.headers timestamp_header in
    if raw == "" then false else fresh_at now tolerance (atoi raw)

abbrev pub signed_by : Crypto → String → String → Option String → Bool
signed_by c secret signature none = false
signed_by c secret signature (some body) = signature == "sha256=" <> c.mac secret body

-- The body is put back after it is read, so that the request stays as it was.
unfoldable pub validate_hmac : Crypto → Request → String → Bool
validate_hmac c r secret =
    let signature = text_at r.headers "X-Hub-Signature-256" in
    if signature == "" then false else signed_by c secret signature r.body

abbrev pub after_char : Char → Option (String × String) → Option (String × String)
after_char c none = none
after_char c (some (a, t)) = some (String.◌∷◌ c a, t)

-- strings.SplitN(s, " ", 2), where it has two parts.
unfoldable pub split_space : String → Option (String × String)
split_space String.[] = none
split_space (String.◌∷◌ c s) =
    let rest = split_space s in if nat_eq (code c) b' ' then some ("", s) else after_char c rest

abbrev pub bearer_of : Crypto → String → Option (String × String) → Bool
bearer_of c expected none = false
bearer_of c expected (some (scheme, token)) = c.equal_fold scheme "Bearer" && token == expected

unfoldable pub validate_bearer : Crypto → Request → String → Bool
unfolding split_space
validate_bearer c r expected =
    let auth = text_at r.headers "Authorization" in
    if auth == "" then false else bearer_of c expected (split_space auth)

-- `validators`: the validator of a type.
unfoldable pub validator_for : Crypto → String → Option (Request → String → Bool)
validator_for c t =
    if t == auth_type_hmac_sha256
    then some (validate_hmac c)
    else if t == auth_type_bearer
    then some (validate_bearer c)
    else none

abbrev pub tolerance_of : AuthConfig → ℕ
tolerance_of config = positive_or config.timestamp_tolerance default_timestamp_tolerance

module _ {W : Type 0} where
  unfoldable pub authenticate :
      AuthConfig → ℕ → (Request → String → Bool) → HttpHandler W → HttpHandler W
  authenticate config now validate next r headers w =
      if config.validate_timestamp && not (timestamp_fresh now (tolerance_of config) r)
      then (http_error 401 "Unauthorized" headers, w)
      else if validate r config.secret
      then next r headers w
      else (http_error 401 "Unauthorized" headers, w)

  abbrev pub built :
      AuthConfig → Option (Request → String → Bool) → Result (ℕ → HttpHandler W → HttpHandler W)
  built config none = err (plain ("unsupported auth type: " <> config.auth_type))
  built config (some validate) = ok (λ now. authenticate config now validate)

  -- AuthMiddleware. `now` is the time of the request in nanoseconds of Unix time.
  unfoldable pub auth_middleware : Crypto → AuthConfig → Result (ℕ → HttpHandler W → HttpHandler W)
  unfolding validator_for
  auth_middleware c config = built config (validator_for c config.auth_type)
