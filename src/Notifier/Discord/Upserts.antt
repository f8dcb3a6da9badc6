-- ===== src/Notifier/Discord/Upserts.antt =====
-- internal/notifier/discord/notifier.go: in upsert mode, what Discord is asked to do for the events
-- of one run, against a description that keeps one reference.
use tekton_events_relay.Prelude.{
  String, true, false, ◌&&◌, Option, none, some, List, [], ◌∷◌, All, ◌==◌, ◌≡◌, ◌≢◌, refl, ◌∙◌, ap,
  arith, eq_iff, if◌then◌else◌, Bool-cases, inl, inr,
}
use tekton_events_relay.Domain.{Event}
use tekton_events_relay.Errors.{Err, Result, ok, err, wrap}
use tekton_events_relay.Store.Lru.{LruCache}
use tekton_events_relay.Notifier.Discord.{
  DiscordApi, DiscordConfig, Guild, Post, edit_of, stored_id, render, remember, sent, edited,
  send_upsert, send_bot, send_webhook, handle_message, mode_upsert, thread_mode_grouped, upsert_at,
}

module _ {S : Type 0} (api : DiscordApi S) (what : String) where
  -- The reference after a send.
  abbrev pub next_id : Option String → Result (Option String) → Option String
  next_id ref (err e) = ref
  next_id ref (ok none) = ref
  next_id ref (ok (some id)) = if id == "" then ref else some id

  abbrev pub send_error : Result (Option String) → Option Err
  send_error (ok id) = none
  send_error (err e) = some (wrap what e)

  abbrev pub post_next : Option String → Result (Option String) × S → Option Err × Option String × S
  post_next ref (x, s) = (send_error x, next_id ref x, s)

  -- An edit that fails is followed by a send.
  abbrev pub edit_next : Post → String → Option Err × S → Option Err × Option String × S
  edit_next p id (none, s) = (none, some id, s)
  edit_next p id (some e, s) = post_next (some id) (api.send p s)

  -- One event: an edit of the message that the reference names, or a send.
  abbrev pub follow : Post → Option String → S → Option Err × Option String × S
  follow p none s = post_next none (api.send p s)
  follow p (some id) s = edit_next p id (api.edit id (edit_of p) s)

  unfoldable pub follow_all :
      (Event → Post) → List Event → Option String → S → List (Option Err) × S
  follow_all msg [] ref s = ([], s)
  follow_all msg (e ∷ es) ref s =
      let (x, ref', s') = follow (msg e) ref s in
      let (errs, t) = follow_all msg es ref' s' in (x ∷ errs, t)

module _ {C S : Type 0} (n : DiscordConfig C S) where
  -- The events, one after another, and what each call returned.
  unfoldable pub handle_messages : List Event → Guild C S → List (Option Err) × S
  handle_messages [] w = ([], w.state)
  handle_messages (e ∷ es) w =
      let (x, w') = handle_message n e w in let (errs, s) = handle_messages es w' in (x ∷ errs, s)

  abbrev pub transport : DiscordApi S
  transport = if n.bot_mode then n.bot else n.webhook

  abbrev pub failure : String
  failure = if n.bot_mode then "discord send message: " else "discord webhook execute: "

module _ {C S : Type 0} (n : DiscordConfig C S) (store : LruCache C String) (uid : String)
    (named : uid ≢ "") where
  -- The reference that is kept of the run.
  abbrev kept : C → Option String
  kept refs = stored_id (store.peek uid refs)

  kept-remember :
      (id : Option String) (refs : C)
      → kept (remember n store uid id refs) ≡ next_id n.bot "" (kept refs) (ok id)
  kept-remember none refs = refl
  kept-remember (some id) refs =
      let u : (uid == "") ≡ false = ground (arith, eq_iff uid "") in
      elim (Bool-cases (id == "")) [
        | inl y ↦ rw (u, y) refl
        | inr m ↦ rw (u, m) (ap stored_id (store.peek-add_self uid id refs) ∙ rw m refl)
      ]

  -- After a call: its error, the reference and the world are those of the description.
  abbrev Followed : Option Err × Guild C S → Option Err × Option String × S → Type 0
  Followed (x, w) (y, ref, s) = (x ≡ y) × (kept w.refs ≡ ref) × (w.state ≡ s)

  sent-Followed :
      (api : DiscordApi S) (what : String) (refs : C) (ref : Option String)
      (o : Result (Option String) × S)
      → kept refs ≡ ref
      → Followed (sent n (some store) what uid refs o) (post_next api what ref o)
  sent-Followed api what refs ref (err e, s) h = (refl, h, refl)
  sent-Followed api what refs ref (ok none, s) h = (refl, h, refl)
  sent-Followed api what refs ref (ok (some id), s) h =
      (refl, rw h at (kept-remember (some id) refs), refl)

  edited-Followed :
      (api : DiscordApi S) (what : String) (refs : C) (p : Post) (id : String) (o : Option Err × S)
      → kept refs ≡ some id
      → Followed
          (edited n refs o (λ t. sent n (some store) what uid refs (api.send p t)))
          (edit_next api what p id o)
  edited-Followed api what refs p id (none, s) h = (refl, h, refl)
  edited-Followed api what refs p id (some e, s) h =
      sent-Followed api what refs (some id) (api.send p s) h

  upsert_at-Followed :
      (api : DiscordApi S) (what : String) (refs : C) (p : Post) (ref : Option String) (s : S)
      → kept refs ≡ ref
      → Followed (upsert_at n api store what uid p ref refs s) (follow api what p ref s)
  upsert_at-Followed api what refs p none s h = sent-Followed api what refs none (api.send p s) h
  upsert_at-Followed api what refs p (some id) s h =
      edited-Followed api what refs p id (api.edit id (edit_of p) s) h

  send_upsert-Followed :
      (api : DiscordApi S) (what : String) (p : Post) (w : Guild C S)
      → Followed (send_upsert n api store what uid p w) (follow api what p (kept w.refs) w.state)
  unfolding send_upsert
  send_upsert-Followed api what p w =
      let found : stored_id ((store.get uid w.refs).0) ≡ kept w.refs =
        ap stored_id (store.get-peek uid w.refs) in
      rw found (
        upsert_at-Followed api what ((store.get uid w.refs).1) p (kept w.refs) w.state
          (ap stored_id (store.peek-get uid uid w.refs)))

  module _ (msg : Event → Post) (renders : (e : Event) → render n e ≡ ok (msg e))
      (stored : n.store ≡ some store) (upserts : (n.mode == mode_upsert) ≡ true)
      (alone : (n.bot_mode && n.thread_mode == thread_mode_grouped) ≡ false) where
    handle_message-upserts :
        (e : Event) (w : Guild C S)
        → e.run_id ≡ uid
        → handle_message n e w ≡ send_upsert n (transport n) store (failure n) uid (msg e) w
    unfolding handle_message send_bot send_webhook
    handle_message-upserts e w mine = elim (Bool-cases n.bot_mode) [
      | inl b ↦
          let flat : (n.thread_mode == thread_mode_grouped) ≡ false = ground (arith, b, alone) in
          rw (renders e, b, stored, flat, upserts, mine) refl
      | inr b ↦ rw (renders e, b, stored, upserts, mine) refl
    ]

    -- In upsert mode, over either transport and whatever Discord answers, the events of one run
    -- are handled as one reference says: an event edits the message it names, or is sent anew
    -- where there is none or the edit fails, and a message that is sent with an id becomes the
    -- reference. Conditions: the events can be rendered, the store is the one that is configured,
    -- and the grouped mode is off for a bot.
    pub upserts_follow_one_message :
        (es : List Event) (w : Guild C S)
        → All (λ e. e.run_id ≡ uid) es
        → handle_messages n es w
          ≡ follow_all (transport n) (failure n) msg es (stored_id (store.peek uid w.refs)) w.state
    unfolding handle_messages follow_all
    upserts_follow_one_message [] w mine = refl
    upserts_follow_one_message (e ∷ es) w mine =
        let called = handle_message-upserts e w mine.0 in
        let f = send_upsert-Followed (transport n) (failure n) (msg e) w in
        let w' : Guild C S = (send_upsert n (transport n) store (failure n) uid (msg e) w).1 in
        let ih = upserts_follow_one_message es w' mine.1 in rw (called, ih, f.0, f.1, f.2) refl
