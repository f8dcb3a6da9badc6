-- ===== src/Scenarios/Servers.antt =====
-- Requests to the server, and the validation of its configuration, run.
use tekton_events_relay.Prelude.{
  ℕ, ◌+◌, ◌-◌, nat_eq, pos, true, false, not, none, some, List, [], ◌∷◌, ◌≡◌, refl, ◌⊎◌, lookup,
  arith, atoi, insert,
}
use tekton_events_relay.Middleware.{Request, HttpHandler, panicked, http_error}
use tekton_events_relay.Middleware.Auth.{
  AuthConfig, Crypto, timestamp_fresh, tolerance_of, validate_hmac, authenticate, auth_middleware,
}
use tekton_events_relay.Middleware.Auth.Window.{accepted_at, timestamp_fresh_window}
use tekton_events_relay.Middleware.RateLimit.{Limiter}
use tekton_events_relay.Middleware.RateLimit.Sources.{
  Arrival, held, answers, limiter_answers, times_of, answers_of, sources_are_limited_alone,
}
use tekton_events_relay.Middleware.Server.{Serving, inner_chain}
use tekton_events_relay.Middleware.Server.Guard.{
  Signed, restamped, auth_middleware_guards, restamped_request_passes,
}
use tekton_events_relay.Middleware.Server.Answers.{
  headers_of, IsReplied, id_of, inner_chain_replies,
}
use tekton_events_relay.Config.{Checks}
use tekton_events_relay.Config.Server.{Settings}
use tekton_events_relay.Config.Scm.{
  Instance, GitHubAuth, ScmConfig, validate_github_instance, validate_gitlab_instance,
  validate_gitea_instance, validate_bitbucket_instance, validate_azure_instance,
  validate_sourcehut_instance, validate_scm,
}
use tekton_events_relay.Config.Scm.Credentials.{Passes, validate_scm-Passes}

-- The signature of a body is the body itself.
abbrev crypto : Crypto
crypto = record { mac = λ secret body. body; equal_fold = λ a b. true }

abbrev config : AuthConfig
config = record {
  auth_type = "hmac-sha256";
  secret = "s";
  validate_timestamp = true;
  timestamp_tolerance = pos 0;
}

abbrev request : Request
request = record {
  method = "POST";
  remote_addr = "10.0.0.1:4000";
  headers = ("X-Hub-Signature-256", "sha256=body") ∷ ("X-Webhook-Timestamp", "1700000000") ∷ [];
  body = some "body";
  max_body = none;
  request_id = none;
}

abbrev now : ℕ
now = 1700000001000000000

-- A handler that panics.
abbrev panics : HttpHandler ℕ
panics r headers w = (panicked headers, w + 1)

auth_middleware_guards_example :
    let guarded = authenticate {W = ℕ} config now (validate_hmac crypto) in
    (guarded panics request [] 0 ≡ (http_error 401 "Unauthorized" [], 0))
    ⊎ (Signed crypto "s" request
        × (timestamp_fresh now (tolerance_of config) request ≡ true)
        × (guarded panics request [] 0 ≡ panics request [] 0))
unfolding auth_middleware
auth_middleware_guards_example =
    auth_middleware_guards crypto config (λ now. authenticate config now (validate_hmac crypto))
      refl refl refl now panics request [] 0

restamped_request_passes_example :
    authenticate {W = ℕ} config now
      (validate_hmac crypto)
      panics
      (restamped "1700000002" request)
      []
      0
    ≡ panics (restamped "1700000002" request) [] 0
unfolding validate_hmac lookup atoi
restamped_request_passes_example =
    restamped_request_passes crypto config now "1700000002" (pos 1700000002) panics request [] 0
      (omega arith) (omega arith) refl refl refl

timestamp_fresh_window_example :
    timestamp_fresh now 300000000000 request ≡ accepted_at now 300000000000 (pos 1700000000)
unfolding atoi lookup
timestamp_fresh_window_example =
    timestamp_fresh_window now 300000000000 (pos 1700000000) request (omega arith) (omega arith)
      refl

-- A limiter that lets two requests through.
abbrev limiter : Limiter ℕ
limiter = record { new_limiter = 2; allow = λ t n. (not (nat_eq n 0), n - 1) }

abbrev arrivals : List Arrival
arrivals = (1, "a") ∷ (2, "b") ∷ (3, "a") ∷ (4, "a") ∷ (5, "b") ∷ []

sources_are_limited_alone_example :
    answers_of limiter "a" (answers limiter arrivals [])
    ≡ limiter_answers limiter (times_of limiter "a" arrivals) (held limiter [] "a")
sources_are_limited_alone_example = sources_are_limited_alone limiter "a" arrivals [] (omega arith)

abbrev serving : Serving ℕ
serving = record {
  crypto = crypto;
  auth = some config;
  limiter = limiter;
  limits_rate = true;
  max_body_size = 0;
  split_host = some;
  now = now;
  fresh_id = "id-1";
}

inner_chain_replies_example :
    IsReplied ((inner_chain serving panics request [] 0).0)
    × (lookup "X-Request-Id" (headers_of ((inner_chain serving panics request [] 0).0))
        ≡ some (id_of serving request))
inner_chain_replies_example = inner_chain_replies serving panics (λ r headers w. refl) request [] 0

abbrev checks : Checks
checks = record {
  cel = λ s. none;
  cel_string = λ s. none;
  template = λ s. none;
  uri = λ s. none;
  split_host_port = λ s. some (s, "6379");
  jq = λ s. none;
  decimal = λ n. "0";
  duration = λ n. "0s";
  below_zero = λ s. false;
  above_one = λ s. false;
}

abbrev settings : Settings
settings = record {
  max_concurrency = pos 50;
  dedupe_size = pos 1000;
  handler_timeout = pos 30000000000;
  write_timeout_sec = pos 60;
  auth = record {
    enabled = true;
    auth_type = "hmac-sha256";
    secret_file = "/etc/secret";
    validate_timestamp = false;
  };
  cert_file = "";
  key_file = "";
  store = record { backend = "memory"; valkey_address = ""; olric_peers = [] };
  retry = record { max_attempts = pos 3; initial_backoff = pos 1; max_backoff = pos 2 };
  dlq_enabled = false;
  dlq_max_size_bytes = pos 0;
  tracing_endpoint = "";
  tracing_sample_rate = "0";
  logging = record { level = "info"; caller = false; http_calls = false; payloads = false };
}

abbrev github : Instance GitHubAuth
github = record {
  name = "gh";
  enabled = true;
  auth = some (record { secret_file = "/etc/token"; app_id = pos 0; installation_id = pos 0 });
  base_url = "https://api.github.com";
  variant = "";
  actions = [];
}

abbrev scm : ScmConfig
scm = record {
  github = github ∷ record github { name = "gh2" } ∷ [];
  gitlab = [];
  gitea = [];
  bitbucket = [];
  azure = [];
  sourcehut = [];
}

validate_scm-Passes_example :
    Passes checks "scm.github" validate_github_instance scm.github
    × Passes checks "scm.gitlab" validate_gitlab_instance scm.gitlab
    × Passes checks "scm.gitea" validate_gitea_instance scm.gitea
    × Passes checks "scm.bitbucket" validate_bitbucket_instance scm.bitbucket
    × Passes checks "scm.azure_devops" validate_azure_instance scm.azure
    × Passes checks "scm.sourcehut" validate_sourcehut_instance scm.sourcehut
unfolding validate_scm lookup insert
validate_scm-Passes_example = validate_scm-Passes checks scm [] refl
