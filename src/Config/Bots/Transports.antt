-- ===== src/Config/Bots/Transports.antt =====
-- What passes internal/config/notifier_validators.go: one transport for each enabled chat instance,
-- and modes of Slack that do not contradict each other.
use tekton_events_relay.Prelude.{
  String, true, false, not, ◌&&◌, Option, none, some, List, [], ◌==◌, ◌≡◌, ◌≢◌, arith, eq_iff,
  is_some, ◌<>◌, if◌then◌else◌,
}
use tekton_events_relay.Config.{Checks, ValidationError, error_if}
use tekton_events_relay.Config.Actions.{validate_cel_when, validate_template}
use tekton_events_relay.Config.Scm.Credentials.{
  exactly_one, enabled_first, append-nil-left, no_error,
}
use tekton_events_relay.Config.Bots.{
  ChatAuth, ChatInstance, BotTokenAuth, has_webhook, bot_errors, chat_auth_errors, lacks_bot,
  validate_bot_token_auth, validate_slack_instance,
}

-- The transport is the webhook or a bot whose token and channel are given, and not both.
abbrev pub IsComplete : Option BotTokenAuth → Type 0
IsComplete none = Unit
IsComplete (some bot) = (bot.token_file ≢ "") × (bot.channel_id ≢ "")

abbrev pub HasTransport : Option ChatAuth → Type 0
HasTransport none = ⊥
HasTransport (some a) =
    (exactly_one (has_webhook a) (is_some a.bot_token) ≡ true) × IsComplete a.bot_token

bot-IsComplete :
    (prefix : String) (bot : Option BotTokenAuth) → bot_errors prefix bot ≡ [] → IsComplete bot
unfolding validate_bot_token_auth
bot-IsComplete prefix none h = tt
bot-IsComplete prefix (some bot) h =
    (ground (arith, eq_iff bot.token_file ""), ground (arith, eq_iff bot.channel_id ""))

transport_one :
    (a : ChatAuth) (message path : String) (rest : List ValidationError)
    → (if not (has_webhook a) && not (is_some a.bot_token)
        then error_if true path message
        else error_if
            (has_webhook a && is_some a.bot_token)
            path
            "auth.webhook_url_file and auth.bot_token are mutually exclusive")
      ≡ []
    → exactly_one (has_webhook a) (is_some a.bot_token) ≡ true
transport_one a message path rest h = ground arith

chat_auth-HasTransport :
    (prefix : String) (auth : Option ChatAuth)
    → chat_auth_errors prefix auth ≡ []
    → HasTransport auth
unfolding chat_auth_errors
chat_auth-HasTransport prefix none h = absurd (cc)
chat_auth-HasTransport prefix (some a) h =
    let parts = append-nil-left _ (bot_errors _ a.bot_token) h in
    (transport_one a _ _ [] parts.0, bot-IsComplete _ a.bot_token parts.1)

pub slack_instance_passes :
    (checks : Checks) (prefix : String) (inst : ChatInstance)
    (mode thread_mode channel_expr : String)
    → validate_slack_instance checks prefix inst mode thread_mode channel_expr ≡ []
    → (inst.enabled ≡ true → HasTransport inst.auth)
      × ((thread_mode == "grouped" && mode == "upsert") ≡ false)
      × ((thread_mode == "grouped" && lacks_bot inst.auth) ≡ false)
unfolding validate_slack_instance
slack_instance_passes checks prefix inst mode thread_mode channel_expr h =
    let p1 = append-nil-left (if inst.enabled then chat_auth_errors prefix inst.auth else []) _ h in
    let p2 = append-nil-left (validate_cel_when checks prefix inst.when) _ p1.1 in
    let p3 = append-nil-left (validate_template checks prefix inst.template) _ p2.1 in
    let path : String = prefix <> ".thread_mode" in
    let known : List ValidationError =
      error_if (not (thread_mode == "") && not (thread_mode == "grouped")) path
        "thread_mode must be empty or \"grouped\"" in
    let exclusive : String = "thread_mode \"grouped\" and mode \"upsert\" are mutually exclusive" in
    let bot : String = "thread_mode \"grouped\" requires bot_token auth" in
    let p4 = append-nil-left known _ p3.1 in
    let p5 =
      append-nil-left (error_if (thread_mode == "grouped" && mode == "upsert") path exclusive) _
        p4.1 in
    let p6 =
      append-nil-left (error_if (thread_mode == "grouped" && lacks_bot inst.auth) path bot) _
        p5.1 in
    (
      λ on.
          chat_auth-HasTransport prefix inst.auth
            (enabled_first inst.enabled (chat_auth_errors prefix inst.auth) _ on h),
      no_error _ path exclusive p5.0,
      no_error _ path bot p6.0,
    )
