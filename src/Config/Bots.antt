-- ===== src/Config/Bots.antt =====
-- internal/config/notifier_validators.go: the instances of Slack, Discord and Mattermost, which
-- authenticate by a webhook or by a bot's token.
pub mod Transports
use tekton_events_relay.Prelude.{
  ℕ, suc, String, Bool, true, false, not, ◌&&◌, ◌||◌, Option, none, some, List, [], ◌∷◌, ◌++◌, ◌==◌,
  ◌<>◌, is_some, if◌then◌else◌,
}
use tekton_events_relay.Config.{
  Checks, ValidationError, error_if, failed_check, msg_auth_required, msg_required,
}
use tekton_events_relay.Config.Names.{indexed}
use tekton_events_relay.Config.Actions.{validate_cel_when, validate_template}

pub record BotTokenAuth : Type 0 where
  pub token_file : String
  pub channel_id : String

-- SlackAuth, DiscordAuth and MattermostAuth
pub record ChatAuth : Type 0 where
  pub webhook_url_file : String
  pub bot_token : Option BotTokenAuth

pub record ChatInstance : Type 0 where
  pub name : String
  pub enabled : Bool
  pub auth : Option ChatAuth
  pub when : String
  pub template : String

unfoldable pub validate_bot_token_auth : String → BotTokenAuth → List ValidationError
validate_bot_token_auth prefix bot =
    error_if (bot.token_file == "") (prefix <> ".token_file") msg_required
    ++ error_if (bot.channel_id == "") (prefix <> ".channel_id") msg_required

abbrev pub bot_errors : String → Option BotTokenAuth → List ValidationError
bot_errors prefix none = []
bot_errors prefix (some bot) = validate_bot_token_auth prefix bot

abbrev pub has_webhook : ChatAuth → Bool
has_webhook a = not (a.webhook_url_file == "")

-- The block `switch` and the fields of the bot, of an enabled instance.
abbrev pub transport_errors : String → ChatAuth → List ValidationError
transport_errors prefix a =
    (if not (has_webhook a) && not (is_some a.bot_token)
      then error_if true (prefix <> ".auth")
          "exactly one of auth.webhook_url_file or auth.bot_token required when enabled"
      else error_if (has_webhook a && is_some a.bot_token) (prefix <> ".auth")
          "auth.webhook_url_file and auth.bot_token are mutually exclusive")
    ++ bot_errors (prefix <> ".auth.bot_token") a.bot_token

unfoldable pub chat_auth_errors : String → Option ChatAuth → List ValidationError
unfolding validate_bot_token_auth
chat_auth_errors prefix auth = elim auth [
  | none ↦ error_if true (prefix <> ".auth") msg_auth_required
  | some a ↦ transport_errors prefix a
]

-- Mattermost's API has no address of its own.
unfoldable pub base_url_errors : String → Option ChatAuth → String → List ValidationError
base_url_errors prefix auth base_url = elim auth [
  | none ↦ []
  | some a ↦
      error_if (is_some a.bot_token && base_url == "") (prefix <> ".base_url")
        "base_url required for bot token mode"
]

abbrev pub lacks_bot : Option ChatAuth → Bool
lacks_bot none = false
lacks_bot (some a) = not (is_some a.bot_token)

unfoldable pub empty_roles : Checks → String → ℕ → List String → List ValidationError
empty_roles checks prefix i [] = []
empty_roles checks prefix i (id ∷ ids) =
    error_if (id == "") (indexed checks (prefix <> ".mention_roles") i) "role ID must not be empty"
    ++ empty_roles checks prefix (suc i) ids

module _ (checks : Checks) where
  open checks use {cel_string}

  unfoldable pub validate_slack_instance :
      String → ChatInstance → String → String → String → List ValidationError
  unfolding chat_auth_errors validate_cel_when validate_template
  validate_slack_instance prefix inst mode thread_mode channel_expr =
      (if inst.enabled then chat_auth_errors prefix inst.auth else [])
      ++ (validate_cel_when checks prefix inst.when
          ++ (validate_template checks prefix inst.template
              ++ (error_if (not (thread_mode == "") && not (thread_mode == "grouped"))
                    (prefix <> ".thread_mode") "thread_mode must be empty or \"grouped\""
                  ++ (error_if (thread_mode == "grouped" && mode == "upsert")
                        (prefix <> ".thread_mode")
                        "thread_mode \"grouped\" and mode \"upsert\" are mutually exclusive"
                      ++ (error_if (thread_mode == "grouped" && lacks_bot inst.auth)
                            (prefix <> ".thread_mode")
                            "thread_mode \"grouped\" requires bot_token auth"
                          ++ (if channel_expr == ""
                              then []
                              else failed_check (cel_string channel_expr)
                                  (prefix <> ".channel_expr") "invalid CEL: "))))))

  unfoldable pub validate_discord_instance :
      String → ChatInstance → List String → List ValidationError
  unfolding chat_auth_errors empty_roles validate_cel_when validate_template
  validate_discord_instance prefix inst mention_roles =
      (if inst.enabled then chat_auth_errors prefix inst.auth else [])
      ++ (empty_roles checks prefix 0 mention_roles
          ++ (validate_cel_when checks prefix inst.when
              ++ validate_template checks prefix inst.template))

  unfoldable pub validate_mattermost_instance :
      String → ChatInstance → String → List ValidationError
  unfolding chat_auth_errors base_url_errors validate_cel_when validate_template
  validate_mattermost_instance prefix inst base_url =
      (if inst.enabled
        then chat_auth_errors prefix inst.auth ++ base_url_errors prefix inst.auth base_url
        else [])
      ++ (validate_cel_when checks prefix inst.when
          ++ validate_template checks prefix inst.template)
