-- ===== src/Config/Server.antt =====
-- internal/config/server_validators.go and the struct validator of internal/config/validator.go:
-- the checks of the server's own sections.
pub mod Sound
use tekton_events_relay.Prelude.{
  ℕ, zero, suc, ◌*◌, ◌-◌, ℤ, pos, negsuc, String, Bool, true, false, not, ◌&&◌, ◌||◌, Option, none,
  some, List, [], ◌∷◌, ◌++◌, ◌==◌, ◌<>◌, ltb, nat_eq, if◌then◌else◌,
}
use tekton_events_relay.Config.{
  Checks, ValidationError, error_if, msg_required_when_enabled, msg_hmac_replay_required,
}

abbrev pub auth_type_bearer : String
auth_type_bearer = "bearer"

abbrev pub auth_type_hmac_sha256 : String
auth_type_hmac_sha256 = "hmac-sha256"

-- The comparisons of Go's int.
abbrev pub int_ltb : ℤ → ℤ → Bool
int_ltb (pos a) (pos b) = ltb a b
int_ltb (pos a) (negsuc b) = false
int_ltb (negsuc a) (pos b) = true
int_ltb (negsuc a) (negsuc b) = ltb b a

pub record AuthConfig : Type 0 where
  pub enabled : Bool
  pub auth_type : String
  pub secret_file : String
  pub validate_timestamp : Bool

pub record StoreConfig : Type 0 where
  pub backend : String
  pub valkey_address : String
  pub olric_peers : List String

pub record RetryConfig : Type 0 where
  pub max_attempts : ℤ
  pub initial_backoff : ℤ
  pub max_backoff : ℤ

pub record LoggingConfig : Type 0 where
  pub level : String
  pub caller : Bool
  pub http_calls : Bool
  pub payloads : Bool

-- The fields of Config outside its instances that the validators read. Durations count
-- nanoseconds.
pub record Settings : Type 0 where
  pub max_concurrency : ℤ
  pub dedupe_size : ℤ
  pub handler_timeout : ℤ
  pub write_timeout_sec : ℤ
  pub auth : AuthConfig
  pub cert_file : String
  pub key_file : String
  pub store : StoreConfig
  pub retry : RetryConfig
  pub dlq_enabled : Bool
  pub dlq_max_size_bytes : ℤ
  pub tracing_endpoint : String
  pub tracing_sample_rate : String
  pub logging : LoggingConfig

-- `time.Duration(n) * time.Second`; a product that leaves int64 is not modelled.
abbrev pub seconds : ℤ → ℤ
seconds (pos n) = pos (n * 1000000000)
seconds (negsuc n) = negsuc (suc n * 1000000000 - 1)

abbrev pub is_supported_auth : String → Bool
is_supported_auth t = t == auth_type_hmac_sha256 || t == auth_type_bearer

-- An error of a validator is its text. The first test that fails returns.
abbrev pub first_failed : List (Bool × String) → Option String
first_failed [] = none
first_failed ((failed, text) ∷ rest) =
    let later = first_failed rest in if failed then some text else later

-- `if err := check(); err != nil { return err }`, and what comes after.
abbrev pub or_next : Option String → Option String → Option String
or_next none later = later
or_next (some e) later = some e

abbrev pub int_is_zero : ℤ → Bool
int_is_zero (pos n) = nat_eq n 0
int_is_zero (negsuc n) = false

module _ (checks : Checks) where
  open checks use {decimal}

  unfoldable pub validate_server : Settings → Option String
  validate_server c = first_failed (
      (
        not (int_is_zero c.max_concurrency)
            && (int_ltb c.max_concurrency (pos 1) || int_ltb (pos 500) c.max_concurrency),
        "max_concurrency: must be between 1 and 500 (or 0 for default), got "
            <> decimal c.max_concurrency,
      )
      ∷ (
        c.auth.enabled && not (is_supported_auth c.auth.auth_type),
        "server.auth.type: unsupported auth type '" <> c.auth.auth_type
            <> "' (must be 'hmac-sha256' or 'bearer')",
      )
      ∷ (
        c.auth.enabled && c.auth.secret_file == "",
        "server.auth: enabled but missing 'secret_file'",
      )
      ∷ (
        c.auth.enabled
            && (c.auth.auth_type == auth_type_hmac_sha256 && not c.auth.validate_timestamp),
        "server.auth.validate_timestamp: " <> msg_hmac_replay_required,
      )
      ∷ [])

  abbrev pub bad_peer : String → Option (String × String) → Bool
  bad_peer peer none = true
  bad_peer peer (some (host, port)) = host == "" || port == ""

  unfoldable pub validate_peers : ℕ → List String → Option String
  validate_peers i [] = none
  validate_peers i (peer ∷ peers) =
      let rest = validate_peers (suc i) peers in
      if bad_peer peer (checks.split_host_port peer)
      then some (
          "store.olric.peers["
          <> decimal (pos i)
          <> "]: '"
          <> peer
          <> "' must be in host:port format")
      else rest

  abbrev pub backend_error : StoreConfig → Option String
  backend_error s =
      if s.backend == "" || (s.backend == "memory" || s.backend == "olric")
      then none
      else if s.backend == "valkey"
      then (if s.valkey_address == ""
          then some "store.valkey: backend selected but missing 'address'"
          else none)
      else some (
          "store.backend: unsupported backend '" <> s.backend
          <> "' (must be 'memory', 'valkey' or 'olric')")

  unfoldable pub validate_store : Settings → Option String
  unfolding validate_peers
  validate_store c = or_next (backend_error c.store) (validate_peers 0 c.store.olric_peers)

  abbrev pub uri_error : String → Option String → Option String
  uri_error endpoint none = none
  uri_error endpoint (some e) = some ("tracing.endpoint: invalid URL '" <> endpoint <> "': " <> e)

  unfoldable pub validate_tracing : Settings → Option String
  validate_tracing c =
      or_next
        (if c.tracing_endpoint == ""
          then none
          else uri_error c.tracing_endpoint (checks.uri c.tracing_endpoint))
        (if checks.below_zero c.tracing_sample_rate || checks.above_one c.tracing_sample_rate
          then some
              ("tracing.sample_rate: must be between 0.0 and 1.0, got " <> c.tracing_sample_rate)
          else none)

unfoldable pub validate_retry : Settings → Option String
validate_retry c = first_failed (
    (int_ltb c.retry.max_attempts (pos 0), "retry.max_attempts: must be non-negative")
    ∷ (
      int_ltb c.retry.initial_backoff (pos 0) || int_ltb c.retry.max_backoff (pos 0),
      "retry: backoff values must be non-negative",
    )
    ∷ (
      int_ltb c.retry.max_backoff c.retry.initial_backoff && int_ltb (pos 0) c.retry.max_backoff,
      "retry: initial_backoff must be <= max_backoff",
    )
    ∷ [])

unfoldable pub validate_limits : Settings → Option String
validate_limits c = first_failed (
    (int_ltb (pos 1000000) c.dedupe_size, "dedupe_size: maximum is 1000000")
    ∷ (
      c.dlq_enabled && int_ltb c.dlq_max_size_bytes (pos 1024),
      "dlq.max_size_bytes: minimum is 1024",
    )
    ∷ (
      int_ltb (pos 0) c.handler_timeout
          && (int_ltb (pos 0) c.write_timeout_sec
              && int_ltb (seconds c.write_timeout_sec) c.handler_timeout),
      "handler_timeout must be less than write_timeout",
    )
    ∷ [])

unfoldable pub validate_tls : Settings → Option String
validate_tls c = first_failed (
    (not (c.cert_file == "") && c.key_file == "", "server.tls: cert_file set but missing key_file")
    ∷ (
      not (c.key_file == "") && c.cert_file == "",
      "server.tls: key_file set but missing cert_file",
    )
    ∷ [])

unfoldable pub validate_logging : Settings → Option String
validate_logging c =
    if (c.logging.caller || (c.logging.http_calls || c.logging.payloads))
      && not (c.logging.level == "debug")
    then some (
        "logging.verbose: verbose options (caller, http_calls, payloads) require logging.level to be 'debug', current level is '"
        <> c.logging.level <> "'")
    else none

-- The first seven checks of Validate, in its order.
unfoldable pub validate_settings : Checks → Settings → Option String
unfolding validate_logging validate_server validate_store validate_retry validate_limits
    validate_tracing validate_tls
validate_settings checks c = or_next (validate_logging c) (
    or_next (validate_server checks c) (
      or_next (validate_store checks c) (
        or_next (validate_retry c)
          (or_next (validate_limits c) (or_next (validate_tracing checks c) (validate_tls c))))))

-- validateServerAuthStruct, with the texts of translateFieldMessage.
unfoldable pub validate_server_auth_struct : AuthConfig → List ValidationError
validate_server_auth_struct auth =
    if auth.enabled
    then ((if is_supported_auth auth.auth_type
          then []
          else if auth.auth_type == ""
          then record { path = "server.auth.type"; message = msg_required_when_enabled } ∷ []
          else record {
            path = "server.auth.type";
            message =
                "unsupported auth type '" <> auth.auth_type
                <> "' (must be 'hmac-sha256' or 'bearer')";
          }
            ∷ [])
        ++ (error_if (auth.secret_file == "") "server.auth.secret_file" msg_required_when_enabled
            ++ error_if (auth.auth_type == auth_type_hmac_sha256 && not auth.validate_timestamp)
                "server.auth.validate_timestamp" msg_hmac_replay_required))
    else []
