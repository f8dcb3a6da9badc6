-- ===== src/Scenarios/Chats.antt =====
-- Messages to a channel, labels and comments, run.
use tekton_events_relay.Scm.Limits.{validate}
use tekton_events_relay.Prelude.{
  String, false, not, true, ◌&&◌, ◌||◌, none, some, List, [], ◌∷◌, ◌++◌, ◌<>◌, ◌≢◌, eq_iff, take,
  Map, ◌≡◌, inr, refl, any, ◌==◌, filter, length, arith, if◌then◌else◌, lookup, rune_count,
}
use tekton_events_relay.Domain.{Event}
use tekton_events_relay.Errors.{ok, plain}
use tekton_events_relay.Notifier.Slack.{SlackConfig, SlackApi, Chat, Message, message_options}
use tekton_events_relay.Notifier.Slack.Sequences.{send_all, reply_all, grouped_replies_to_last}
use tekton_events_relay.Notifier.Discord.{DiscordApi, DiscordConfig, Guild, post_of, render}
use tekton_events_relay.Notifier.Discord.Upserts.{
  handle_messages, follow_all, upserts_follow_one_message,
}
use tekton_events_relay.Scm.Labels.{
  Label, LabelSet, LabelsApi, not_found, Labeling, apply_label_set, render_label_list,
}
use tekton_events_relay.Scm.Labels.Converge.{LabelsLaws, names, apply_label_set_converges}
use tekton_events_relay.Scm.Comments.{with_marker}
use tekton_events_relay.Scm.Upsert.{Comment, CommentsApi, upsert_comment}
use tekton_events_relay.Scm.Upsert.Once.{replaced, CommentsLaws, upsert_comment_once}
use tekton_events_relay.Scenarios.{task_event, run_event, map_cache}

distinct : (a b : String) → (a == b) ≡ false → a ≢ b
distinct a b h e = ground (arith, h, e, eq_iff a b)

-- A workspace that keeps what it is sent; every message has the timestamp "1.0".
abbrev api : SlackApi (List String)
api = record {
  post = λ channel m s. (ok "1.0", ("post " <> channel) ∷ s);
  update = λ channel ts m s. (none, ("edit " <> ts) ∷ s);
}

abbrev slack : String → String → SlackConfig (Map String) (List String)
slack mode thread_mode = record {
  api = api;
  store = some map_cache;
  channel_id = "C1";
  channel = "#ci";
  channel_expr = none;
  username = "";
  icon_emoji = "";
  template = some (λ e. ok e.run_name);
  mode = mode;
  thread_mode = thread_mode;
  thread_ts = "";
  upper = λ s. s;
  rounded = λ a b. "1s";
}

abbrev message : Event → Message
message e = record {
  text = some e.run_name;
  attachments = [];
  username = "";
  icon_emoji = "";
  thread = none;
}

abbrev chat : Chat (Map String) (List String)
chat = record { refs = []; state = [] }

abbrev threading : SlackConfig (Map String) (List String)
threading = slack "" "grouped"

grouped_replies_to_last_example :
    send_all threading (task_event ∷ run_event ∷ []) chat
    ≡ reply_all threading message none (task_event ∷ run_event ∷ []) []
unfolding message_options map_cache
grouped_replies_to_last_example =
    grouped_replies_to_last threading map_cache message (λ e. refl) refl "uid-1"
      (task_event ∷ run_event ∷ []) chat refl (distinct "uid-1" "" refl) (refl, (refl, tt))

-- A server whose messages cannot be edited.
abbrev discord_api : DiscordApi (List String)
discord_api = record {
  send = λ p s. (ok (some "m2"), ("send " <> p.content) ∷ s);
  edit = λ id p s. (some (plain "404"), ("edit " <> id) ∷ s);
}

abbrev discord : DiscordConfig (Map String) (List String)
discord = record {
  bot_mode = true;
  bot = discord_api;
  webhook = discord_api;
  store = some map_cache;
  template = some (λ e. ok e.run_name);
  mention_roles = [];
  mode = "upsert";
  thread_mode = "";
}

abbrev guild : Guild (Map String) (List String)
guild = record { refs = ("uid-1", "m1") ∷ []; state = [] }

upserts_follow_one_message_example :
    handle_messages discord (task_event ∷ run_event ∷ []) guild
    ≡ follow_all discord_api "discord send message: "
        (λ e. post_of e.run_name [])
        (task_event ∷ run_event ∷ [])
        (some "m1")
        []
unfolding lookup render map_cache
upserts_follow_one_message_example =
    upserts_follow_one_message discord map_cache "uid-1" (distinct "uid-1" "" refl)
      (λ e. post_of e.run_name []) (λ e. refl) refl refl refl (task_event ∷ run_event ∷ []) guild
      (refl, (refl, tt))

-- An issue that is the list of its labels.
abbrev labels : LabelsApi (List String)
labels = record {
  remove_label = λ n s. (none, filter (λ k. not (k == n)) s);
  add_labels = λ ns s. (none, ns ++ s);
  get_label = λ n s. (inr not_found, s);
  edit_label = λ n c s. (none, s);
  create_label = λ n c s. (none, s);
  render = λ t e. ok t;
}

any-removed :
    (n m : String) (s : List String)
    → any (λ k. k == m) (filter (λ k. not (k == n)) s)
      ≡ (if n == m then false else any (λ k. k == m) s)
any-removed n m [] = ground arith
any-removed n m (k ∷ s) = ground (arith, any-removed n m s, eq_iff k n, eq_iff k m, eq_iff n m)

any-append :
    (m : String) (xs ys : List String)
    → any (λ k. k == m) (xs ++ ys) ≡ (any (λ k. k == m) xs || any (λ k. k == m) ys)
any-append m [] ys = refl
any-append m (x ∷ xs) ys = ground (arith, any-append m xs ys)

abbrev labels_laws : LabelsLaws (List String) labels
labels_laws = record {
  has = λ m s. any (λ k. k == m) s;
  removed = λ n m s h. any-removed n m s;
  added = λ ns m s h. any-append m ns s;
  getting = λ n m s. refl;
  editing = λ n c m s. refl;
  creating = λ n c m s. refl;
}

abbrev label : String → Label
label name = record { name = name; color = "d73a4a" }

abbrev failed_not_passed : LabelSet
failed_not_passed = record { to_add = label "ci: failed" ∷ []; to_remove = label "ci: passed" ∷ [] }

abbrev passed : Labeling (List String)
passed = record { checked = []; state = "ci: passed" ∷ "bug" ∷ [] }

apply_label_set_converges_example :
    any
      (λ k. k == "bug")
      ((apply_label_set labels "o/r/" failed_not_passed task_event passed).1.state)
    ≡ (names "bug" (label "ci: failed" ∷ [])
        || (any (λ k. k == "bug") passed.state && not (names "bug" (label "ci: passed" ∷ []))))
unfolding render_label_list apply_label_set validate lookup rune_count
apply_label_set_converges_example =
    apply_label_set_converges labels labels_laws "bug" "o/r/" failed_not_passed task_event passed
      (label "ci: failed" ∷ []) (label "ci: passed" ∷ []) refl refl refl

-- An issue that is the list of its comments.
abbrev comments : CommentsApi (List Comment)
comments = record {
  list_comments = λ s. (ok (take 100 s), s);
  create_comment = λ body s. (none, s ++ record { id = length s; body = body } ∷ []);
  edit_comment = λ id body s. (none, replaced id body s);
  render = λ e. ok e.run_name;
}

page_of : (s cs : List Comment) → (comments.list_comments s).0 ≡ ok cs → cs ≡ take 100 s
page_of s cs h = cc

abbrev comments_laws : CommentsLaws (List Comment) comments
unfolding page_of
comments_laws = record {
  thread = λ s. s;
  listed = page_of;
  listing = λ s. refl;
  next_id = λ s. length s;
  created = λ body s h. refl;
  edited = λ id body s h. refl;
}

abbrev relayed : List Comment
relayed = (upsert_comment comments "<!-- relay -->" (with_marker "<!-- relay -->" "running") []).1

abbrev relayed_again : List Comment
relayed_again =
    (upsert_comment comments "<!-- relay -->" (with_marker "<!-- relay -->" "done") relayed).1

upsert_comment_once_example : length relayed_again ≡ length relayed
unfolding comments_laws upsert_comment with_marker
upsert_comment_once_example =
    upsert_comment_once comments comments_laws "<!-- relay -->" "running" "done" [] []
      (take 100 relayed) (omega arith) refl refl refl refl
