-- ===== src/Notifier/Slack.antt =====
-- internal/notifier/slack/notifier.go over a bot token, and internal/notifier/msgstore/msgstore.go.
pub mod Sequences
use tekton_events_relay.Prelude.{
  ℕ, zero, suc, String, Bool, true, false, not, ◌&&◌, ◌||◌, Option, none, some, List, [], ◌∷◌, ◌++◌,
  map, ◌==◌, ◌<>◌, or_else, nat_eq, if◌then◌else◌,
}
use tekton_events_relay.Domain.{
  Event, State, Time, state_success, state_failure, state_error, state_running,
}
use tekton_events_relay.Errors.{Err, Result, ok, err, plain, wrap}
use tekton_events_relay.Scm.Limits.{first_runes}
use tekton_events_relay.Store.Lru.{LruCache}

abbrev pub mode_upsert : String
mode_upsert = "upsert"

abbrev pub thread_mode_grouped : String
thread_mode_grouped = "grouped"

pub record Field : Type 0 where
  pub title : String
  pub value : String

pub record Attachment : Type 0 where
  pub color : String
  pub text : String
  pub footer : String
  pub fields : List Field

-- What the message options come to: a text or attachments, and the thread that it replies to.
pub record Message : Type 0 where
  pub text : Option String
  pub attachments : List Attachment
  pub username : String
  pub icon_emoji : String
  pub thread : Option String

-- chat.postMessage and chat.update of the SDK, on the world outside. Post answers the message's ts.
pub record SlackApi (S : Type 0) : Type 0 where
  pub post : String → Message → S → Result String × S
  pub update : String → String → Message → S → Option Err × S

-- `channel_expr` is EvalString of the expression, where there is one, none on its error; `template`
-- executes the template, where there is one; `upper` is strings.ToUpper; `rounded` prints the time
-- between two times, to the second.
pub record SlackConfig (C S : Type 0) : Type 0 where
  pub api : SlackApi S
  pub store : Option (LruCache C String)
  pub channel_id : String
  pub channel : String
  pub channel_expr : Option (Event → Option String)
  pub username : String
  pub icon_emoji : String
  pub template : Option (Event → Result String)
  pub mode : String
  pub thread_mode : String
  pub thread_ts : String
  pub upper : String → String
  pub rounded : Time → Time → String

-- The references of MemoryStore, and the world outside.
pub record Chat (C S : Type 0) : Type 0 where
  pub refs : C
  pub state : S

unfoldable pub color_for : State → String
color_for s =
    if s == state_success
    then "#36a64f"
    else if s == state_failure || s == state_error
    then "#e01e5a"
    else if s == state_running
    then "#daa038"
    else "#aaaaaa"

unfoldable pub emoji_for : State → String
emoji_for s =
    if s == state_success
    then ":white_check_mark:"
    else if s == state_failure || s == state_error
    then ":x:"
    else if s == state_running
    then ":hourglass_flowing_sand:"
    else ":grey_question:"

unfoldable pub default_text : Event → String
unfolding emoji_for
default_text e =
    emoji_for e.state
    <> " *"
    <> e.context
    <> "* — "
    <> e.description
    <> (if e.target_url == "" then "" else "\n<" <> e.target_url <> "|View run>")

abbrev pub non_empty_ref : Option String → Option String
non_empty_ref none = none
non_empty_ref (some ref) = if ref == "" then none else some ref

module _ {C S : Type 0} (n : SlackConfig C S) where
  -- `e.CommitSHA[:min(7, len(e.CommitSHA))]`: the name of a commit is ASCII, so that its bytes are
  -- its characters.
  unfoldable pub attachment_fields : Event → List Field
  unfolding first_runes
  attachment_fields e =
      record { title = "State"; value = n.upper e.state }
      ∷ record { title = "Run"; value = e.run_name }
      ∷ ((if e.commit_sha == ""
            then []
            else record { title = "Commit"; value = first_runes 7 e.commit_sha } ∷ [])
          ++ (if nat_eq e.started_at 0 || nat_eq e.finished_at 0
              then []
              else record { title = "Duration"; value = n.rounded e.started_at e.finished_at }
                ∷ []))

  unfoldable pub attachment : Event → Attachment
  unfolding color_for default_text attachment_fields
  attachment e = record {
    color = color_for e.state;
    text = default_text e;
    footer = e.namespace <> "/" <> e.run_name;
    fields = attachment_fields e;
  }

  abbrev pub routed : Option (Event → Option String) → Event → String
  routed none e = ""
  routed (some expr) e = or_else (expr e) ""

  -- New sets the channel to the id where no channel is given.
  unfoldable pub resolve_channel : Event → String
  resolve_channel e =
      if not (routed n.channel_expr e == "")
      then routed n.channel_expr e
      else if n.channel == ""
      then n.channel_id
      else n.channel

  abbrev pub message_with : Option String → List Attachment → Message
  message_with text attachments = record {
    text = text;
    attachments = attachments;
    username = n.username;
    icon_emoji = n.icon_emoji;
    thread = if n.thread_ts == "" then none else some n.thread_ts;
  }

  abbrev pub templated : Result String → Result Message
  templated (ok text) = ok (message_with (some text) [])
  templated (err e) = err (wrap "template execution failed: " e)

  unfoldable pub message_options : Event → Result Message
  unfolding attachment
  message_options e = elim n.template [
    | some execute ↦ templated (execute e)
    | none ↦ ok (message_with none (attachment e ∷ []))
  ]

  -- MemoryStore.Load, and Save: with no store there is nothing to load.
  abbrev pub load : LruCache C String → String → C → Option String × C
  load store run_id refs = let (ref, refs') = store.get run_id refs in (non_empty_ref ref, refs')

  abbrev pub save_ref : LruCache C String → String → String → C → C
  save_ref store run_id ts refs =
      if run_id == "" || ts == "" then refs else store.add run_id ts refs

  -- The answer to a post, whose ts is saved where `store` says so.
  abbrev pub posted :
      Option (LruCache C String) → String → C → Result String × S → Option Err × Chat C S
  posted store run_id refs (err e, s) =
      (some (wrap "slack post message: " e), record { refs = refs; state = s })
  posted none run_id refs (ok ts, s) = (none, record { refs = refs; state = s })
  posted (some store) run_id refs (ok ts, s) =
      (none, record { refs = save_ref store run_id ts refs; state = s })

  abbrev pub updated : C → Option Err × S → Option Err × Chat C S
  updated refs (none, s) = (none, record { refs = refs; state = s })
  updated refs (some e, s) =
      (some (wrap "slack update message: " e), record { refs = refs; state = s })

  abbrev pub in_thread : Option String → Message → Message
  in_thread none m = m
  in_thread (some ts) m = record m { thread = some ts }

  unfoldable pub send_grouped :
      LruCache C String → Event → Message → Chat C S → Option Err × Chat C S
  unfolding resolve_channel
  send_grouped store e m w =
      let (ref, refs) = load store e.run_id w.refs in
      posted (some store) e.run_id refs (n.api.post (resolve_channel e) (in_thread ref m) w.state)

  abbrev pub upsert_at :
      LruCache C String → Event → Message → Option String → C → S → Option Err × Chat C S
  upsert_at store e m (some ts) refs s = updated refs (n.api.update (resolve_channel e) ts m s)
  upsert_at store e m none refs s =
      posted (some store) e.run_id refs (n.api.post (resolve_channel e) m s)

  unfoldable pub send_upsert :
      LruCache C String → Event → Message → Chat C S → Option Err × Chat C S
  unfolding resolve_channel
  send_upsert store e m w =
      let (ref, refs) = load store e.run_id w.refs in upsert_at store e m ref refs w.state

  abbrev pub send_stored : LruCache C String → Event → Message → Chat C S → Option Err × Chat C S
  send_stored store e m w =
      if n.thread_mode == thread_mode_grouped
      then send_grouped store e m w
      else if n.mode == mode_upsert
      then send_upsert store e m w
      else posted none e.run_id w.refs (n.api.post (resolve_channel e) m w.state)

  abbrev pub send_message : Event → Result Message → Chat C S → Option Err × Chat C S
  send_message e (err x) w = (some x, w)
  send_message e (ok m) w = elim n.store [
    | some store ↦ send_stored store e m w
    | none ↦ posted none e.run_id w.refs (n.api.post (resolve_channel e) m w.state)
  ]

  -- sendBot
  unfoldable pub send_bot : Event → Chat C S → Option Err × Chat C S
  unfolding message_options send_grouped send_upsert resolve_channel
  send_bot e w = send_message e (message_options e) w

  abbrev pub flushed : Chat C S → Result String × S → Option Err × Chat C S
  flushed w (ok ts, s) = (none, record w { state = s })
  flushed w (err e, s) = (some (wrap "slack batch post: " e), record w { state = s })

  -- flushBot, with Flush's test for no events.
  unfoldable pub flush_bot : List Event → Chat C S → Option Err × Chat C S
  unfolding attachment resolve_channel
  flush_bot [] w = (none, w)
  flush_bot (e ∷ events) w =
      let m : Message = record {
        text = none;
        attachments = map attachment (e ∷ events);
        username = n.username;
        icon_emoji = n.icon_emoji;
        thread = none;
      } in
      flushed w (n.api.post (resolve_channel e) m w.state)
