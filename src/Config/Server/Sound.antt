-- ===== src/Config/Server/Sound.antt =====
-- What a configuration that passes internal/config/server_validators.go gives the components that
-- read it.
use tekton_events_relay.Prelude.{
  ℕ, suc, pos, String, true, not, Option, none, some, ◌≡◌, ◌≢◌, refl, arith, ◌==◌, eq_iff, is_some,
  if◌then◌else◌,
}
use tekton_events_relay.Config.{Checks}
use tekton_events_relay.Config.Server.{
  Settings, RetryConfig, validate_server, validate_logging, validate_retry, validate_tls,
  validate_settings, or_next, is_supported_auth, auth_type_hmac_sha256,
}
use tekton_events_relay.Middleware.Auth.{Crypto, validator_for}
use tekton_events_relay.Retry.{RetryPolicy, normalized}

-- The policy that the retry section configures.
abbrev pub policy_of : RetryConfig → RetryPolicy
policy_of r = record {
  max_attempts = r.max_attempts;
  initial_backoff = r.initial_backoff;
  max_backoff = r.max_backoff;
}

-- Values that are set and pass are used as they are.
pub validate_retry-normalized :
    (c : Settings) (attempts initial ceiling : ℕ)
    → c.retry ≡ record {
      max_attempts = pos (suc attempts);
      initial_backoff = pos (suc initial);
      max_backoff = pos (suc ceiling);
    }
    → validate_retry c ≡ none
    → normalized (policy_of c.retry)
      ≡ record { attempts = suc attempts; initial = suc initial; ceiling = suc ceiling }
unfolding validate_retry normalized
validate_retry-normalized c attempts initial ceiling e h =
    rw e (let passed : validate_retry c ≡ none = h in ground arith)

pub validate_tls_lem :
    (c : Settings)
    → is_some (validate_tls c)
      ≡ (if c.cert_file == "" then not (c.key_file == "") else c.key_file == "")
unfolding validate_tls
validate_tls_lem c = ground arith

both_none : (a b : Option String) → or_next a b ≡ none → (a ≡ none) × (b ≡ none)
both_none none b h = (refl, h)
both_none (some e) b h = absurd (cc)

auth_supported :
    (checks : Checks) (c : Settings)
    → c.auth.enabled ≡ true
    → validate_server checks c ≡ none
    → is_supported_auth c.auth.auth_type ≡ true
unfolding validate_server
auth_supported checks c on h = ground arith

auth_secret :
    (checks : Checks) (c : Settings)
    → c.auth.enabled ≡ true
    → validate_server checks c ≡ none
    → c.auth.secret_file ≢ ""
unfolding validate_server
auth_secret checks c on h = ground (arith, eq_iff c.auth.secret_file "")

auth_timestamps :
    (checks : Checks) (c : Settings)
    → c.auth.enabled ≡ true
    → validate_server checks c ≡ none
    → (c.auth.auth_type == auth_type_hmac_sha256) ≡ true
    → c.auth.validate_timestamp ≡ true
unfolding validate_server
auth_timestamps checks c on h signed = ground arith

supported_is_known :
    (crypto : Crypto) (t : String)
    → is_supported_auth t ≡ true
    → is_some (validator_for crypto t) ≡ true
unfolding validator_for
supported_is_known crypto t h = ground arith

-- So the middleware of a configuration that passes can be built, and with signatures it checks the
-- timestamps too.
pub validated_auth_is_built :
    (checks : Checks) (crypto : Crypto) (c : Settings)
    → validate_settings checks c ≡ none
    → c.auth.enabled ≡ true
    → (is_some (validator_for crypto c.auth.auth_type) ≡ true)
      × (c.auth.secret_file ≢ "")
      × ((c.auth.auth_type == auth_type_hmac_sha256) ≡ true → c.auth.validate_timestamp ≡ true)
unfolding validate_settings
validated_auth_is_built checks crypto c h on =
    let server : validate_server checks c ≡ none =
      (both_none (validate_server checks c) _ (both_none (validate_logging c) _ h).1).0 in
    (
      supported_is_known crypto c.auth.auth_type (auth_supported checks c on server),
      auth_secret checks c on server,
      auth_timestamps checks c on server,
    )
