-- ===== src/Config/Webhooks.antt =====
-- internal/config/notifier_validators.go: the ways in which a webhook authenticates.
use tekton_events_relay.Prelude.{
  String, Bool, true, not, ◌&&◌, ◌||◌, Option, none, some, List, [], ◌==◌, ◌<>◌, is_some,
  if◌then◌else◌,
}
use tekton_events_relay.Config.{ValidationError, error_if}
use tekton_events_relay.Config.Actions.{OAuth2Config, validate_oauth2}

pub record WebhookAuthConfig : Type 0 where
  pub auth_type : String
  pub token_file : String
  pub username_file : String
  pub password_file : String
  pub header : String
  pub secret_file : String
  pub oauth2 : Option OAuth2Config

abbrev pub given : String → Bool
given s = not (s == "")

-- The fields that a type wants, then those that it refuses.
abbrev pub wants_and_refuses : String → Bool → String → Bool → String → List ValidationError
wants_and_refuses prefix wants missing refuses extra =
    if not wants
    then error_if true (prefix <> ".auth") missing
    else error_if refuses (prefix <> ".auth") extra

unfoldable pub validate_webhook_bearer_auth : String → WebhookAuthConfig → List ValidationError
validate_webhook_bearer_auth prefix a =
    wants_and_refuses prefix (given a.token_file) "type 'bearer' requires 'token_file'"
      (given a.username_file || (given a.password_file || (given a.secret_file || given a.header)))
      "type 'bearer' does not accept 'username_file', 'password_file', 'secret_file', or 'header'"

unfoldable pub validate_webhook_basic_auth : String → WebhookAuthConfig → List ValidationError
validate_webhook_basic_auth prefix a =
    wants_and_refuses prefix (given a.username_file && given a.password_file)
      "type 'basic' requires 'username_file' and 'password_file'"
      (given a.token_file || (given a.secret_file || given a.header))
      "type 'basic' does not accept 'token_file', 'secret_file', or 'header'"

unfoldable pub validate_webhook_apikey_auth : String → WebhookAuthConfig → List ValidationError
validate_webhook_apikey_auth prefix a =
    wants_and_refuses prefix (given a.token_file && given a.header)
      "type 'apikey' requires 'token_file' and 'header'"
      (given a.username_file || (given a.password_file || given a.secret_file))
      "type 'apikey' does not accept 'username_file', 'password_file', or 'secret_file'"

unfoldable pub validate_webhook_hmac_auth : String → WebhookAuthConfig → List ValidationError
validate_webhook_hmac_auth prefix a =
    wants_and_refuses prefix (given a.secret_file) "type 'hmac' requires 'secret_file'"
      (given a.token_file || (given a.username_file || (given a.password_file || given a.header)))
      "type 'hmac' does not accept 'token_file', 'username_file', 'password_file', or 'header'"

unfoldable pub validate_webhook_oauth2_auth : String → WebhookAuthConfig → List ValidationError
unfolding validate_oauth2
validate_webhook_oauth2_auth prefix a =
    if not (is_some a.oauth2)
    then error_if true (prefix <> ".auth") "type 'oauth2' requires an 'oauth2' block"
    else if given a.token_file
        || (given a.username_file
            || (given a.password_file || (given a.secret_file || given a.header)))
    then error_if true (prefix <> ".auth")
        "type 'oauth2' does not accept 'token_file', 'username_file', 'password_file', 'secret_file', or 'header'"
    else validate_oauth2 (prefix <> ".auth") a.oauth2

abbrev pub by_type : String → WebhookAuthConfig → List ValidationError
by_type prefix a =
    if a.auth_type == ""
    then []
    else if a.auth_type == "bearer"
    then validate_webhook_bearer_auth prefix a
    else if a.auth_type == "basic"
    then validate_webhook_basic_auth prefix a
    else if a.auth_type == "apikey"
    then validate_webhook_apikey_auth prefix a
    else if a.auth_type == "hmac"
    then validate_webhook_hmac_auth prefix a
    else if a.auth_type == "oauth2"
    then validate_webhook_oauth2_auth prefix a
    else error_if true (prefix <> ".auth.type") ("invalid type '" <> a.auth_type <> "'")

-- validateWebhookAuth
unfoldable pub validate_webhook_auth :
    String → Bool → Option WebhookAuthConfig → List ValidationError
unfolding validate_webhook_bearer_auth validate_webhook_basic_auth validate_webhook_apikey_auth
    validate_webhook_hmac_auth validate_webhook_oauth2_auth
validate_webhook_auth prefix enabled auth = elim auth [
  | none ↦ []
  | some a ↦ if enabled then by_type prefix a else []
]
