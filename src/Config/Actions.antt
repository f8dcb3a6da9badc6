-- ===== src/Config/Actions.antt =====
-- internal/config/template_validators.go: the checks that the providers and the notifiers share.
use tekton_events_relay.Prelude.{
  ℕ, suc, String, Bool, true, not, ◌&&◌, ◌||◌, Option, none, some, List, [], ◌∷◌, ◌++◌, ◌==◌, ◌<>◌,
  any, is_empty, if◌then◌else◌,
}
use tekton_events_relay.Config.{
  Checks, ValidationError, error_if, failed_check, msg_base_url_required,
}
use tekton_events_relay.Config.Names.{indexed}

-- A label: its name; the colour is not checked.
pub record ActionLabels : Type 0 where
  pub to_add : List String
  pub to_remove : List String

-- The fields of Action that the validators read.
pub record Action : Type 0 where
  pub name : String
  pub action_type : String
  pub when : String
  pub template : String
  pub context_per_task : Bool
  pub labels : Option ActionLabels
  pub fallback_action : String

abbrev pub action_label : String
action_label = "label"

abbrev pub action_commit_status : String
action_commit_status = "commit_status"

abbrev pub valid_types : List String
valid_types =
    "commit_status" ∷ "commit_comment" ∷ "pr_comment" ∷ "issue_comment" ∷ "label"
    ∷ "discussion_comment" ∷ "check_run" ∷ "deployment_status" ∷ "incident_create" ∷ []

abbrev pub no_effect : Option ActionLabels → Bool
no_effect none = true
no_effect (some l) = is_empty l.to_add && is_empty l.to_remove

-- OAuth2Config, as far as validateOAuth2 reads it.
pub record OAuth2Config : Type 0 where
  pub grant_type : String
  pub token_url : String

-- Headless grants.
abbrev pub is_supported_grant : String → Bool
is_supported_grant g = g == "" || (g == "client_credentials" || g == "refresh_token")

abbrev pub oauth2_errors : String → OAuth2Config → List ValidationError
oauth2_errors prefix o =
    error_if (not (is_supported_grant o.grant_type)) (prefix <> ".oauth2.grant_type")
      "must be 'client_credentials' or 'refresh_token' (authorization_code is not supported — the relay has no redirect endpoint; seed a refresh_token instead)"
    ++ error_if (o.token_url == "") (prefix <> ".oauth2.token_url") "oauth2 requires 'token_url'"

unfoldable pub validate_oauth2 : String → Option OAuth2Config → List ValidationError
validate_oauth2 prefix o = elim o [ none ↦ [] | some c ↦ oauth2_errors prefix c ]

module _ (checks : Checks) where
  open checks use {cel, template, uri}

  unfoldable pub validate_cel_when : String → String → List ValidationError
  validate_cel_when prefix when =
      if when == "" then [] else failed_check (cel when) (prefix <> ".when") "invalid CEL: "

  unfoldable pub validate_template : String → String → List ValidationError
  validate_template prefix text =
      if text == ""
      then []
      else failed_check (template text) (prefix <> ".template") "invalid template: "

  unfoldable pub require_base_url : String → Bool → String → List ValidationError
  require_base_url prefix enabled base_url =
      if not enabled
      then []
      else if base_url == ""
      then error_if true (prefix <> ".base_url") msg_base_url_required
      else failed_check (uri base_url) (prefix <> ".base_url")
          ("invalid URL '" <> base_url <> "': ")

  unfoldable pub validate_action : String → Action → List ValidationError
  unfolding validate_cel_when validate_template
  validate_action prefix a =
      error_if (not (a.action_type == "") && not (any (λ t. t == a.action_type) valid_types))
        (prefix <> ".type")
        ("invalid action type '" <> a.action_type
          <> "' (must be one of: commit_status, commit_comment, pr_comment, issue_comment, label, discussion_comment, check_run, deployment_status, incident_create)")
      ++ (error_if (a.action_type == action_label && no_effect a.labels) (prefix <> ".labels")
            "label actions require a labels block with at least one add or remove entry"
          ++ (error_if (a.context_per_task && not (a.action_type == action_commit_status))
                (prefix <> ".context_per_task")
                ("context_per_task is only valid for commit_status actions, but action type is '"
                  <> a.action_type <> "'")
              ++ (validate_cel_when prefix a.when
                  ++ (validate_template prefix a.template
                      ++ error_if (not (a.fallback_action == "") && a.fallback_action == a.name)
                          (prefix <> ".fallback_action")
                          "fallback_action cannot reference itself (anti-loop)"))))

  unfoldable pub validate_actions : String → ℕ → List Action → List ValidationError
  unfolding validate_action
  validate_actions prefix i [] = []
  validate_actions prefix i (a ∷ actions) =
      validate_action (indexed checks (prefix <> ".actions") i) a
      ++ validate_actions prefix (suc i) actions
