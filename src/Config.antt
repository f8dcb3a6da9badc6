-- ===== src/Config.antt =====
-- internal/config: the sections of the configuration that its validators read, and what the
-- validators call of other packages.
pub mod Server
pub mod Names
pub mod Actions
pub mod Scm
pub mod Bots
pub mod Webhooks
pub mod Services
use tekton_events_relay.Prelude.{
  ℕ, ℤ, String, Bool, Option, none, some, List, [], ◌∷◌, ◌++◌, ◌<>◌, if◌then◌else◌,
}

-- Each check is the text of the error, or none. `cel` is the compiler of policies to truth values,
-- and `cel_string` of those to texts; `template` is text/template's Parse; `uri` is
-- url.ParseRequestURI; `split_host_port` is net.SplitHostPort; `jq` parses and compiles a jq
-- program; `decimal` is what %d prints, and `duration` what %s prints of a duration. A float is
-- kept as its text, which `below_zero` and `above_one` read.
pub record Checks : Type 0 where
  pub cel : String → Option String
  pub cel_string : String → Option String
  pub template : String → Option String
  pub uri : String → Option String
  pub split_host_port : String → Option (String × String)
  pub jq : String → Option String
  pub decimal : ℤ → String
  pub duration : ℤ → String
  pub below_zero : String → Bool
  pub above_one : String → Bool

-- ValidationError
pub record ValidationError : Type 0 where
  pub path : String
  pub message : String

-- `if b { errs = append(errs, ValidationError{…}) }`
abbrev pub error_if : Bool → String → String → List ValidationError
error_if b path message = if b then record { path = path; message = message } ∷ [] else []

-- A failed check, as `path: invalid …: the check's error`.
abbrev pub failed_check : Option String → String → String → List ValidationError
failed_check none path message = []
failed_check (some e) path message = record { path = path; message = message <> e } ∷ []

abbrev pub msg_required : String
msg_required = "required"

abbrev pub msg_required_for_enabled : String
msg_required_for_enabled = "required for enabled instance"

abbrev pub msg_required_when_enabled : String
msg_required_when_enabled = "required when auth is enabled"

abbrev pub msg_hmac_replay_required : String
msg_hmac_replay_required = "must be true when server.auth.type is 'hmac-sha256'"

abbrev pub msg_auth_required : String
msg_auth_required = "enabled instance missing required field 'auth'"

abbrev pub msg_base_url_required : String
msg_base_url_required = "enabled instance missing required field 'base_url'"
