-- ===== src/Config/Scm.antt =====
-- internal/config/scm_validators.go: the instances of the source control providers.
pub mod Credentials
use tekton_events_relay.Prelude.{
  ℕ, suc, ℤ, pos, String, Bool, true, false, not, ◌&&◌, ◌||◌, Option, none, some, List, [], ◌∷◌,
  ◌++◌, ◌==◌, ◌<>◌, is_some, if◌then◌else◌,
}
use tekton_events_relay.Config.{
  Checks, ValidationError, error_if, failed_check, msg_auth_required, msg_required_for_enabled,
}
use tekton_events_relay.Config.Server.{int_is_zero}
use tekton_events_relay.Config.Names.{Names, validate_each, and_then}
use tekton_events_relay.Config.Actions.{Action, OAuth2Config, validate_actions, require_base_url}

pub record GitHubAuth : Type 0 where
  pub secret_file : String
  pub app_id : ℤ
  pub installation_id : ℤ

-- GitLabAuth and GiteaAuth
pub record TokenAuth : Type 0 where
  pub secret_file : String
  pub oauth2 : Option OAuth2Config

pub record BitbucketAuth : Type 0 where
  pub username_file : String
  pub app_password_file : String
  pub token_file : String
  pub oauth2 : Option OAuth2Config

-- The instance of a provider whose credentials are an `A`. `variant` is of GitLab and Bitbucket.
pub record Instance (A : Type 0) : Type 0 where
  pub name : String
  pub variant : String
  pub enabled : Bool
  pub base_url : String
  pub auth : Option A
  pub actions : List Action

abbrev pub has_secret : Option GitHubAuth → Bool
has_secret none = false
has_secret (some a) = not (a.secret_file == "")

abbrev pub has_app : Option GitHubAuth → Bool
has_app none = false
has_app (some a) = not (int_is_zero a.app_id) && not (int_is_zero a.installation_id)

abbrev pub app_fields_set : Option GitHubAuth → Bool
app_fields_set none = false
app_fields_set (some a) = not (int_is_zero a.app_id) || not (int_is_zero a.installation_id)

unfoldable pub github_auth_errors : String → Option GitHubAuth → List ValidationError
github_auth_errors prefix auth =
    (if has_secret auth && has_app auth
      then error_if true (prefix <> ".auth")
          "cannot use both token (secret_file) and GitHub App auth (app_id, installation_id); choose one"
      else error_if (not (has_secret auth) && not (has_app auth)) prefix
          "either 'auth.secret_file' or GitHub App credentials (auth.app_id, auth.installation_id) required when enabled; private key must be mounted at /etc/github-app/private-key.pem")
    ++ error_if (app_fields_set auth && not (has_app auth)) prefix
        "when using GitHub App auth, both fields (auth.app_id, auth.installation_id) are required"

-- GetBaseURL of GitHubInstance
abbrev pub github_base_url : Instance GitHubAuth → String
github_base_url inst = if inst.base_url == "" then "https://api.github.com" else inst.base_url

-- The credentials of GitLab and of Gitea.
unfoldable pub token_auth_errors : String → Option TokenAuth → List ValidationError
token_auth_errors prefix auth = elim auth [
  | none ↦ error_if true (prefix <> ".auth") msg_auth_required
  | some a ↦
      error_if (a.secret_file == "" && not (is_some a.oauth2)) (prefix <> ".auth")
        "either auth.secret_file or auth.oauth2 required when enabled"
      ++ error_if (not (a.secret_file == "") && is_some a.oauth2) (prefix <> ".auth")
          "cannot use both auth.secret_file and auth.oauth2; choose one"
]

unfoldable pub bitbucket_cloud_errors : String → Option BitbucketAuth → List ValidationError
bitbucket_cloud_errors prefix auth = elim auth [
  | none ↦ error_if true (prefix <> ".auth") "variant 'cloud' requires auth"
  | some a ↦
      error_if
        (not (not (a.username_file == "") && not (a.app_password_file == ""))
          && not (is_some a.oauth2))
        (prefix <> ".auth")
        "variant 'cloud' requires either (username_file + app_password_file) or oauth2"
]

unfoldable pub bitbucket_server_errors : String → Option BitbucketAuth → List ValidationError
bitbucket_server_errors prefix auth = elim auth [
  | none ↦ error_if true (prefix <> ".auth") "variant 'server' requires auth"
  | some a ↦
      error_if (a.token_file == "") (prefix <> ".auth.token_file")
        "variant 'server' requires auth.token_file"
]

-- No secret file, or an empty name of one.
abbrev pub no_secret : Option String → Bool
no_secret none = true
no_secret (some file) = file == ""

module _ (checks : Checks) where
  open checks use {uri}

  unfoldable pub validate_github_instance : String → Instance GitHubAuth → List ValidationError
  unfolding github_auth_errors require_base_url validate_actions
  validate_github_instance prefix inst =
      (if inst.enabled then github_auth_errors prefix inst.auth else [])
      ++ (require_base_url checks prefix inst.enabled (github_base_url inst)
          ++ validate_actions checks prefix 0 inst.actions)

  abbrev pub gitlab_errors : String → Instance TokenAuth → List ValidationError
  gitlab_errors prefix inst =
      error_if (not (inst.variant == "saas") && not (inst.variant == "self-managed"))
        (prefix <> ".variant")
        ("variant must be 'saas' or 'self-managed', got '" <> inst.variant <> "'")
      ++ (token_auth_errors prefix inst.auth
          ++ (error_if (inst.variant == "self-managed" && inst.base_url == "")
                (prefix <> ".base_url") "base_url is required for self-managed variant"
              ++ (if inst.base_url == ""
                  then []
                  else failed_check (uri inst.base_url) (prefix <> ".base_url")
                      ("invalid URL '" <> inst.base_url <> "': "))))

  unfoldable pub validate_gitlab_instance : String → Instance TokenAuth → List ValidationError
  unfolding validate_actions token_auth_errors
  validate_gitlab_instance prefix inst =
      (if inst.enabled then gitlab_errors prefix inst else [])
      ++ validate_actions checks prefix 0 inst.actions

  unfoldable pub validate_gitea_instance : String → Instance TokenAuth → List ValidationError
  unfolding token_auth_errors require_base_url validate_actions
  validate_gitea_instance prefix inst =
      (if inst.enabled then token_auth_errors prefix inst.auth else [])
      ++ (require_base_url checks prefix inst.enabled inst.base_url
          ++ validate_actions checks prefix 0 inst.actions)

  abbrev pub bitbucket_errors : String → Instance BitbucketAuth → List ValidationError
  bitbucket_errors prefix inst =
      error_if (not (inst.variant == "cloud") && not (inst.variant == "server"))
        (prefix <> ".variant") ("variant must be 'cloud' or 'server', got '" <> inst.variant <> "'")
      ++ (if inst.variant == "cloud"
          then bitbucket_cloud_errors prefix inst.auth
          else bitbucket_server_errors prefix inst.auth
            ++ require_base_url checks prefix inst.enabled inst.base_url)

  unfoldable pub validate_bitbucket_instance :
      String → Instance BitbucketAuth → List ValidationError
  unfolding validate_actions bitbucket_cloud_errors bitbucket_server_errors require_base_url
  validate_bitbucket_instance prefix inst =
      (if inst.enabled then bitbucket_errors prefix inst else [])
      ++ validate_actions checks prefix 0 inst.actions

  -- Azure DevOps: `auth` holds the field `secret_file` of the instance.
  unfoldable pub validate_azure_instance : String → Instance String → List ValidationError
  unfolding require_base_url validate_actions
  validate_azure_instance prefix inst =
      error_if (inst.enabled && no_secret inst.auth) (prefix <> ".secret_file")
        msg_required_for_enabled
      ++ (require_base_url checks prefix inst.enabled inst.base_url
          ++ validate_actions checks prefix 0 inst.actions)

  -- SourceHut: `auth` is the secret file of its block, where it has one.
  unfoldable pub validate_sourcehut_instance : String → Instance String → List ValidationError
  unfolding require_base_url validate_actions
  validate_sourcehut_instance prefix inst =
      error_if (inst.enabled && no_secret inst.auth) (prefix <> ".auth") msg_auth_required
      ++ (require_base_url checks prefix inst.enabled inst.base_url
          ++ validate_actions checks prefix 0 inst.actions)

-- SCMConfig
pub record ScmConfig : Type 0 where
  pub github : List (Instance GitHubAuth)
  pub gitlab : List (Instance TokenAuth)
  pub gitea : List (Instance TokenAuth)
  pub bitbucket : List (Instance BitbucketAuth)
  pub azure : List (Instance String)
  pub sourcehut : List (Instance String)

abbrev pub name_of : {A : Type 0} → Instance A → String
name_of inst = inst.name

-- One provider: its path, its validator and its instances.
abbrev pub validate_provider :
    {A : Type 0}
    → Checks
    → String
    → (Checks → String → Instance A → List ValidationError)
    → List (Instance A)
    → Names
    → Option String × Names
validate_provider checks path validate insts names =
    validate_each checks path name_of (validate checks) 0 insts names

-- validateSCM
unfoldable pub validate_scm : Checks → ScmConfig → Names → Option String × Names
unfolding validate_each validate_github_instance validate_gitlab_instance validate_gitea_instance
    validate_bitbucket_instance validate_azure_instance validate_sourcehut_instance
validate_scm checks c names =
    and_then (validate_provider checks "scm.github" validate_github_instance c.github names) (λ n1.
      and_then (validate_provider checks "scm.gitlab" validate_gitlab_instance c.gitlab n1) (λ n2.
        and_then (validate_provider checks "scm.gitea" validate_gitea_instance c.gitea n2) (λ n3.
          and_then
            (validate_provider checks "scm.bitbucket" validate_bitbucket_instance c.bitbucket n3)
            (λ n4.
              and_then
                (validate_provider checks "scm.azure_devops" validate_azure_instance c.azure n4)
                (validate_provider checks "scm.sourcehut" validate_sourcehut_instance
                  c.sourcehut)))))
