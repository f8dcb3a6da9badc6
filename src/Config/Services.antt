-- ===== src/Config/Services.antt =====
-- internal/config/notifier_validators.go: the instances of the services that authenticate by one
-- secret file.
use tekton_events_relay.Prelude.{
  ℕ, suc, String, Bool, true, false, not, ◌&&◌, ◌||◌, Option, none, some, List, [], ◌∷◌, ◌++◌, ◌==◌,
  ◌<>◌, ◌≡◌, ◌≢◌, arith, eq_iff, if◌then◌else◌,
}
use tekton_events_relay.Config.{
  Checks, ValidationError, error_if, msg_auth_required, msg_required, msg_required_for_enabled,
  msg_base_url_required,
}
use tekton_events_relay.Config.Names.{indexed}
use tekton_events_relay.Config.Actions.{validate_cel_when, validate_template}

-- `auth` is the secret file of the instance's block, where it has one.
pub record Service : Type 0 where
  pub enabled : Bool
  pub auth : Option String
  pub when : String
  pub template : String

abbrev pub is_missing : Option String → Bool
is_missing none = true
is_missing (some file) = file == ""

abbrev pub missing_auth : String → Service → List ValidationError
missing_auth prefix inst = error_if (is_missing inst.auth) (prefix <> ".auth") msg_auth_required

-- A field that an enabled instance needs besides its secret.
abbrev pub missing_field : String → String → String → List ValidationError
missing_field prefix name value = error_if (value == "") (prefix <> "." <> name) msg_required

unfoldable pub empty_mentions : Checks → String → ℕ → List String → List ValidationError
empty_mentions checks prefix i [] = []
empty_mentions checks prefix i (id ∷ ids) =
    error_if (id == "") (indexed checks (prefix <> ".mention_users") i <> ".id")
      "id is required for mention_users entries"
    ++ empty_mentions checks prefix (suc i) ids

abbrev pub is_priority : String → Bool
is_priority p = p == "P1" || (p == "P2" || (p == "P3" || (p == "P4" || p == "P5")))

module _ (checks : Checks) (prefix : String) (inst : Service) where
  abbrev pub when_errors : List ValidationError
  unfolding validate_cel_when
  when_errors = validate_cel_when checks prefix inst.when

  abbrev pub template_errors : List ValidationError
  unfolding validate_template
  template_errors = validate_template checks prefix inst.template

  -- What PagerDuty, Datadog and incident.io share.
  unfoldable pub validate_secret_instance : List ValidationError
  unfolding validate_cel_when
  validate_secret_instance = (if inst.enabled then missing_auth prefix inst else []) ++ when_errors

  abbrev pub validate_pagerduty_instance : List ValidationError
  unfolding validate_secret_instance
  validate_pagerduty_instance = validate_secret_instance

  abbrev pub validate_datadog_instance : List ValidationError
  unfolding validate_secret_instance
  validate_datadog_instance = validate_secret_instance

  abbrev pub validate_incident_io_instance : List ValidationError
  unfolding validate_secret_instance
  validate_incident_io_instance = validate_secret_instance

  unfoldable pub validate_teams_instance : List String → List ValidationError
  unfolding empty_mentions validate_cel_when validate_template
  validate_teams_instance mention_users =
      (if inst.enabled then missing_auth prefix inst else [])
      ++ (empty_mentions checks prefix 0 mention_users ++ (when_errors ++ template_errors))

  unfoldable pub validate_opsgenie_instance : String → List ValidationError
  unfolding validate_cel_when
  validate_opsgenie_instance priority =
      (if inst.enabled then missing_auth prefix inst else [])
      ++ (error_if (not (priority == "") && not (is_priority priority)) (prefix <> ".priority")
            "priority must be one of P1, P2, P3, P4, P5"
          ++ when_errors)

  -- What New Relic, Honeycomb and Sentry share.
  unfoldable pub validate_named_instance : String → String → List ValidationError
  unfolding validate_cel_when
  validate_named_instance field value =
      (if inst.enabled then missing_auth prefix inst ++ missing_field prefix field value else [])
      ++ when_errors

  abbrev pub validate_new_relic_instance : String → List ValidationError
  unfolding validate_named_instance
  validate_new_relic_instance account_id = validate_named_instance "account_id" account_id

  abbrev pub validate_honeycomb_instance : String → List ValidationError
  unfolding validate_named_instance
  validate_honeycomb_instance dataset = validate_named_instance "dataset" dataset

  abbrev pub validate_sentry_instance : String → List ValidationError
  unfolding validate_named_instance
  validate_sentry_instance org = validate_named_instance "org" org

  unfoldable pub validate_telegram_instance : String → List ValidationError
  unfolding validate_cel_when validate_template
  validate_telegram_instance chat_id =
      (if inst.enabled
        then missing_auth prefix inst ++ missing_field prefix "chat_id" chat_id
        else [])
      ++ (when_errors ++ template_errors)

  unfoldable pub validate_grafana_instance : String → List ValidationError
  unfolding validate_cel_when validate_template
  validate_grafana_instance url =
      (if inst.enabled
        then error_if (url == "") (prefix <> ".url") msg_base_url_required
          ++ (missing_auth prefix inst
              ++ error_if (inst.template == "") (prefix <> ".template") msg_required_for_enabled)
        else [])
      ++ (when_errors ++ template_errors)

  -- An enabled Telegram instance that passes has its token and its chat.
  pub telegram_instance_passes :
      (chat_id : String)
      → validate_telegram_instance chat_id ≡ []
      → inst.enabled ≡ true
      → (is_missing inst.auth ≡ false) × (chat_id ≢ "")
  unfolding validate_telegram_instance
  telegram_instance_passes chat_id h e = (ground arith, λ x. ground (arith, eq_iff chat_id ""))

  -- An enabled Grafana instance that passes has its address, its token and its template.
  pub grafana_instance_passes :
      (url : String)
      → validate_grafana_instance url ≡ []
      → inst.enabled ≡ true
      → (is_missing inst.auth ≡ false) × (url ≢ "") × (inst.template ≢ "")
  unfolding validate_grafana_instance
  grafana_instance_passes url h e = (
    ground arith,
    λ x. ground (arith, eq_iff url ""),
    λ x. ground (arith, eq_iff inst.template ""),
  )
