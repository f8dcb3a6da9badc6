-- ===== src/Config/Scm/Credentials.antt =====
-- What passes internal/config/scm_validators.go: one way to authenticate for each enabled instance,
-- and no two instances of a provider with one name.
use tekton_events_relay.Prelude.{
  String, Bool, true, false, not, ◌&&◌, ◌||◌, Option, none, some, List, [], ◌∷◌, ◌++◌, ◌≡◌, ◌≢◌,
  refl, arith, ◌==◌, eq_iff, is_some, if◌then◌else◌,
}
use tekton_events_relay.Config.{Checks, ValidationError, error_if}
use tekton_events_relay.Config.Names.{Names, and_then, AllPass, IsDistinct, validate_each_passes}
use tekton_events_relay.Config.Scm.{
  Instance, GitHubAuth, TokenAuth, ScmConfig, has_secret, has_app, app_fields_set,
  github_auth_errors, token_auth_errors, validate_github_instance, gitlab_errors,
  validate_gitlab_instance, validate_gitea_instance, validate_bitbucket_instance,
  validate_azure_instance, validate_sourcehut_instance, validate_scm, name_of,
}

pub append-nil-left : {A : Type 0} (xs ys : List A) → xs ++ ys ≡ [] → (xs ≡ []) × (ys ≡ [])
append-nil-left [] ys h = (refl, h)
append-nil-left (x ∷ xs) ys h = absurd (cc)

-- The errors of an enabled instance come first.
pub enabled_first :
    {A : Type 0} (on : Bool) (xs ys : List A)
    → on ≡ true
    → (if on then xs else []) ++ ys ≡ []
    → xs ≡ []
enabled_first true xs ys e h = (append-nil-left xs ys h).0
enabled_first false xs ys e h = absurd (cc)

pub no_error : (b : Bool) (path message : String) → error_if b path message ≡ [] → b ≡ false
no_error true path message h = absurd (cc)
no_error false path message h = refl

abbrev pub exactly_one : Bool → Bool → Bool
exactly_one a b = (a && not b) || (not a && b)

github_auth_one :
    (prefix : String) (auth : Option GitHubAuth)
    → github_auth_errors prefix auth ≡ []
    → (exactly_one (has_secret auth) (has_app auth) ≡ true)
      × (app_fields_set auth ≡ true → has_app auth ≡ true)
unfolding github_auth_errors
github_auth_one prefix none h = absurd (cc)
github_auth_one prefix (some a) h = ground arith

pub github_instance_authenticates :
    (checks : Checks) (prefix : String) (inst : Instance GitHubAuth)
    → validate_github_instance checks prefix inst ≡ []
    → inst.enabled ≡ true
    → (exactly_one (has_secret inst.auth) (has_app inst.auth) ≡ true)
      × (app_fields_set inst.auth ≡ true → has_app inst.auth ≡ true)
unfolding validate_github_instance
github_instance_authenticates checks prefix inst h on =
    github_auth_one prefix inst.auth
      (enabled_first inst.enabled (github_auth_errors prefix inst.auth) _ on h)

abbrev pub has_token : Option TokenAuth → Bool
has_token none = false
has_token (some a) = not (a.secret_file == "")

abbrev pub has_oauth2 : Option TokenAuth → Bool
has_oauth2 none = false
has_oauth2 (some a) = is_some a.oauth2

token_auth_one :
    (prefix : String) (auth : Option TokenAuth)
    → token_auth_errors prefix auth ≡ []
    → exactly_one (has_token auth) (has_oauth2 auth) ≡ true
unfolding token_auth_errors
token_auth_one prefix none h = absurd (cc)
token_auth_one prefix (some a) h = ground arith

pub gitlab_instance_authenticates :
    (checks : Checks) (prefix : String) (inst : Instance TokenAuth)
    → validate_gitlab_instance checks prefix inst ≡ []
    → inst.enabled ≡ true
    → (exactly_one (has_token inst.auth) (has_oauth2 inst.auth) ≡ true)
      × ((inst.variant == "saas" || inst.variant == "self-managed") ≡ true)
      × (inst.variant ≡ "self-managed" → inst.base_url ≢ "")
unfolding validate_gitlab_instance
gitlab_instance_authenticates checks prefix inst h on =
    let errors =
      append-nil-left _ _ (enabled_first inst.enabled (gitlab_errors checks prefix inst) _ on h) in
    let rest = append-nil-left _ _ errors.1 in
    let base : (inst.variant == "self-managed" && inst.base_url == "") ≡ false =
      no_error _ _ _ ((append-nil-left _ _ rest.1).0) in
    let known : (not (inst.variant == "saas") && not (inst.variant == "self-managed")) ≡ false =
      no_error _ _ _ errors.0 in
    (
      token_auth_one prefix inst.auth rest.0,
      ground arith,
      λ e f. ground (arith, eq_iff inst.variant "self-managed", eq_iff inst.base_url ""),
    )

passes_both :
    (o : Option String × Names) (next : Names → Option String × Names)
    → ((and_then o next).0) ≡ none
    → (o.0 ≡ none) × ((next (o.1)).0 ≡ none)
passes_both (none, names) next h = (refl, h)
passes_both (some e, names) next h = absurd (cc)

-- What passes of one provider.
abbrev pub Passes :
    {A : Type 0}
    → Checks
    → String
    → (Checks → String → Instance A → List ValidationError)
    → List (Instance A)
    → Type 0
Passes checks path validate insts =
    AllPass checks path name_of (validate checks) 0 insts
    × IsDistinct checks path name_of (validate checks) insts

-- A configuration of source control that validateSCM accepts has no instance, of any of the six
-- providers, on which its validator reports an error, and no two instances of one provider with
-- one name.
pub validate_scm-Passes :
    (checks : Checks) (c : ScmConfig) (names : Names)
    → (validate_scm checks c names).0 ≡ none
    → Passes checks "scm.github" validate_github_instance c.github
      × Passes checks "scm.gitlab" validate_gitlab_instance c.gitlab
      × Passes checks "scm.gitea" validate_gitea_instance c.gitea
      × Passes checks "scm.bitbucket" validate_bitbucket_instance c.bitbucket
      × Passes checks "scm.azure_devops" validate_azure_instance c.azure
      × Passes checks "scm.sourcehut" validate_sourcehut_instance c.sourcehut
unfolding validate_scm
validate_scm-Passes checks c names h =
    let p1 = passes_both _ _ h in
    let p2 = passes_both _ _ p1.1 in
    let p3 = passes_both _ _ p2.1 in
    let p4 = passes_both _ _ p3.1 in
    let p5 = passes_both _ _ p4.1 in
    (
      validate_each_passes checks "scm.github" name_of (validate_github_instance checks) c.github _
          p1.0,
      validate_each_passes checks "scm.gitlab" name_of (validate_gitlab_instance checks) c.gitlab _
          p2.0,
      validate_each_passes checks "scm.gitea" name_of (validate_gitea_instance checks) c.gitea _
          p3.0,
      validate_each_passes checks "scm.bitbucket" name_of (validate_bitbucket_instance checks)
          c.bitbucket _ p4.0,
      validate_each_passes checks "scm.azure_devops" name_of (validate_azure_instance checks)
          c.azure _ p5.0,
      validate_each_passes checks "scm.sourcehut" name_of (validate_sourcehut_instance checks)
          c.sourcehut _ p5.1,
    )
