-- ===== src/Notifier/Discord.antt =====
-- internal/notifier/discord/notifier.go over either transport: a bot token, or a webhook.
pub mod Upserts
use tekton_events_relay.Prelude.{
  ℕ, String, Bool, true, false, Option, none, some, List, [], ◌∷◌, ◌++◌, map, is_empty, ◌==◌, ◌||◌,
  ◌<>◌, if◌then◌else◌,
}
use tekton_events_relay.Domain.{
  Event, State, state_success, state_failure, state_error, state_running,
}
use tekton_events_relay.Errors.{Err, Result, ok, err, wrap}
use tekton_events_relay.Scm.Limits.{first_runes}
use tekton_events_relay.Store.Lru.{LruCache}

abbrev pub mode_upsert : String
mode_upsert = "upsert"

abbrev pub thread_mode_grouped : String
thread_mode_grouped = "grouped"

pub record EmbedField : Type 0 where
  pub name : String
  pub value : String

pub record Embed : Type 0 where
  pub title : String
  pub description : String
  pub color : ℕ
  pub fields : List EmbedField
  pub footer : String
  pub url : String

-- What is sent: MessageSend or WebhookParams. `reference` is the message that it replies to.
pub record Post : Type 0 where
  pub content : String
  pub embeds : List Embed
  pub reference : Option String

-- What is edited: WebhookEdit or MessageEdit; a part that is none is left as it is.
pub record Edit : Type 0 where
  pub content : Option String
  pub embeds : Option (List Embed)

-- The calls of the SDK on the world outside. A send answers the message's id, none where the SDK
-- gives no message.
pub record DiscordApi (S : Type 0) : Type 0 where
  pub send : Post → S → Result (Option String) × S
  pub edit : String → Edit → S → Option Err × S

-- `bot` sends to the configured channel, and `webhook` under the configured name. `template`
-- executes the template, where there is one.
pub record DiscordConfig (C S : Type 0) : Type 0 where
  pub bot_mode : Bool
  pub bot : DiscordApi S
  pub webhook : DiscordApi S
  pub store : Option (LruCache C String)
  pub template : Option (Event → Result String)
  pub mention_roles : List String
  pub mode : String
  pub thread_mode : String

-- The references of the message store, and the world outside.
pub record Guild (C S : Type 0) : Type 0 where
  pub refs : C
  pub state : S

unfoldable pub color_for : State → ℕ
color_for s =
    if s == state_success
    then 3581519
    else if s == state_failure || s == state_error
    then 14687834
    else if s == state_running
    then 14327864
    else 11184810

-- strings.Join of the mentions.
unfoldable pub role_mentions : List String → String
role_mentions [] = ""
role_mentions (id ∷ ids) =
    let rest = role_mentions ids in
    if is_empty ids then "<@&" <> id <> ">" else "<@&" <> id <> "> " <> rest

-- The name of a commit is ASCII, so that its bytes are its characters.
unfoldable pub embed : Event → Embed
unfolding color_for first_runes
embed e = record {
  title = e.context;
  description = e.description;
  color = color_for e.state;
  fields =
      record { name = "State"; value = "`" <> e.state <> "`" }
      ∷ record { name = "Run"; value = "`" <> e.run_name <> "`" }
      ∷ (if e.commit_sha == ""
          then []
          else record { name = "Commit"; value = "`" <> first_runes 7 e.commit_sha <> "`" } ∷ []);
  footer = e.namespace <> "/" <> e.run_name;
  url = e.target_url;
}

abbrev pub mentioned : String → String → String
mentioned mentions content =
    if mentions == ""
    then content
    else if content == ""
    then mentions
    else mentions <> " " <> content

abbrev pub post_of : String → List Embed → Post
post_of content embeds = record { content = content; embeds = embeds; reference = none }

-- Only the parts that the post has are edited.
abbrev pub edit_of : Post → Edit
edit_of p = record {
  content = if p.content == "" then none else some p.content;
  embeds = if is_empty p.embeds then none else some p.embeds;
}

abbrev pub replying : Option String → Post → Post
replying none p = p
replying (some id) p = record p { reference = some id }

-- `if id, ok := Load(runID); ok && id != ""`
abbrev pub stored_id : Option String → Option String
stored_id none = none
stored_id (some id) = if id == "" then none else some id

module _ {C S : Type 0} (n : DiscordConfig C S) where
  abbrev pub templated : String → Result String → Result Post
  templated mentions (ok text) = ok (post_of (mentioned mentions text) [])
  templated mentions (err e) = err (wrap "template execution failed: " e)

  unfoldable pub render : Event → Result Post
  unfolding role_mentions embed
  render e = elim n.template [
    | some execute ↦ templated (role_mentions n.mention_roles) (execute e)
    | none ↦ ok (post_of (mentioned (role_mentions n.mention_roles) "") (embed e ∷ []))
  ]

  -- rememberMessage: the id of a post, where it has one and the event has a run.
  abbrev pub remember : LruCache C String → String → Option String → C → C
  remember store run_id none refs = refs
  remember store run_id (some id) refs =
      if run_id == "" || id == "" then refs else store.add run_id id refs

  abbrev pub remember_in : Option (LruCache C String) → String → Option String → C → C
  remember_in none run_id id refs = refs
  remember_in (some store) run_id id refs = remember store run_id id refs

  -- The answer to a send, whose id is remembered where `store` says so.
  abbrev pub sent :
      Option (LruCache C String)
      → String
      → String
      → C
      → Result (Option String) × S
      → Option Err × Guild C S
  sent store what run_id refs (err e, s) = (some (wrap what e), record { refs = refs; state = s })
  sent store what run_id refs (ok id, s) =
      (none, record { refs = remember_in store run_id id refs; state = s })

  -- The answer to an edit: where it fails, `next` posts anew.
  abbrev pub edited : C → Option Err × S → (S → Option Err × Guild C S) → Option Err × Guild C S
  edited refs (none, s) next = (none, record { refs = refs; state = s })
  edited refs (some e, s) next = next s

  abbrev pub upsert_at :
      DiscordApi S
      → LruCache C String
      → String
      → String
      → Post
      → Option String
      → C
      → S
      → Option Err × Guild C S
  upsert_at api store what run_id p none refs s = sent (some store) what run_id refs (api.send p s)
  upsert_at api store what run_id p (some id) refs s =
      edited refs (api.edit id (edit_of p) s)
        (λ t. sent (some store) what run_id refs (api.send p t))

  -- The upsert of both transports.
  unfoldable pub send_upsert :
      DiscordApi S → LruCache C String → String → String → Post → Guild C S → Option Err × Guild C S
  send_upsert api store what run_id p w =
      let (ref, refs) = store.get run_id w.refs in
      upsert_at api store what run_id p (stored_id ref) refs w.state

  unfoldable pub send_grouped :
      LruCache C String → String → Post → Guild C S → Option Err × Guild C S
  send_grouped store run_id p w =
      let (ref, refs) = store.get run_id w.refs in
      sent (some store) "discord send message: " run_id refs
        (n.bot.send (replying (stored_id ref) p) w.state)

  abbrev pub send_stored :
      DiscordApi S → LruCache C String → String → String → Post → Guild C S → Option Err × Guild C S
  unfolding send_upsert
  send_stored api store what run_id p w =
      if n.mode == mode_upsert
      then send_upsert api store what run_id p w
      else sent none what run_id w.refs (api.send p w.state)

  unfoldable pub send_webhook : Event → Post → Guild C S → Option Err × Guild C S
  unfolding send_upsert
  send_webhook e p w = elim n.store [
    | some store ↦ send_stored n.webhook store "discord webhook execute: " e.run_id p w
    | none ↦ sent none "discord webhook execute: " e.run_id w.refs (n.webhook.send p w.state)
  ]

  unfoldable pub send_bot : Event → Post → Guild C S → Option Err × Guild C S
  unfolding send_upsert send_grouped
  send_bot e p w = elim n.store [
    | none ↦ sent none "discord send message: " e.run_id w.refs (n.bot.send p w.state)
    | some store ↦
        if n.thread_mode == thread_mode_grouped
        then send_grouped store e.run_id p w
        else send_stored n.bot store "discord send message: " e.run_id p w
  ]

  abbrev pub handle_rendered : Event → Result Post → Guild C S → Option Err × Guild C S
  unfolding send_bot send_webhook
  handle_rendered e (err x) w = (some x, w)
  handle_rendered e (ok p) w = if n.bot_mode then send_bot e p w else send_webhook e p w

  -- Handle
  unfoldable pub handle_message : Event → Guild C S → Option Err × Guild C S
  unfolding render
  handle_message e w = handle_rendered e (render e) w

  abbrev pub flushed : String → Guild C S → Result (Option String) × S → Option Err × Guild C S
  flushed what w (ok id, s) = (none, record w { state = s })
  flushed what w (err e, s) = (some (wrap what e), record w { state = s })

  -- Flush
  unfoldable pub flush_embeds : List Event → Guild C S → Option Err × Guild C S
  unfolding embed
  flush_embeds [] w = (none, w)
  flush_embeds (e ∷ es) w =
      let p : Post = post_of "" (map embed (e ∷ es)) in
      if n.bot_mode
      then flushed "discord batch send: " w (n.bot.send p w.state)
      else flushed "discord batch webhook: " w (n.webhook.send p w.state)
