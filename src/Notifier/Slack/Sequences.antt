-- ===== src/Notifier/Slack/Sequences.antt =====
-- internal/notifier/slack/notifier.go: what Slack is asked to do for the events of one run, in the
-- modes that keep a reference to a message.
use tekton_events_relay.Prelude.{
  String, true, false, Option, none, some, List, [], ◌∷◌, All, ◌==◌, ◌≡◌, ◌≢◌, refl, ◌∙◌, ap, arith,
  eq_iff, if◌then◌else◌, Bool-cases, inl, inr,
}
use tekton_events_relay.Domain.{Event}
use tekton_events_relay.Errors.{Err, Result, ok, err, wrap}
use tekton_events_relay.Store.Lru.{LruCache}
use tekton_events_relay.Notifier.Slack.{
  SlackConfig, Chat, Message, send_bot, send_grouped, send_upsert, message_options, resolve_channel,
  posted, updated, save_ref, non_empty_ref, in_thread, send_stored, thread_mode_grouped,
  mode_upsert,
}

module _ {C S : Type 0} (n : SlackConfig C S) where
  -- The events, one after another, and what each call returned.
  unfoldable pub send_all : List Event → Chat C S → List (Option Err) × S
  send_all [] w = ([], w.state)
  send_all (e ∷ es) w =
      let (x, w') = send_bot n e w in let (errs, s) = send_all es w' in (x ∷ errs, s)

  abbrev pub update_error : Option Err → Option Err
  update_error none = none
  update_error (some e) = some (wrap "slack update message: " e)

  -- One edit of the message `ts` for each event.
  unfoldable pub edit_all : (Event → Message) → String → List Event → S → List (Option Err) × S
  edit_all msg ts [] s = ([], s)
  edit_all msg ts (e ∷ es) s =
      let (x, s') = n.api.update (resolve_channel n e) ts (msg e) s in
      let (errs, t) = edit_all msg ts es s' in (update_error x ∷ errs, t)

  -- The message that the next event replies to, after a post.
  abbrev pub next_ref : Option String → Result String → Option String
  next_ref ref (err e) = ref
  next_ref ref (ok ts) = if ts == "" then ref else some ts

  abbrev pub post_error : Result String → Option Err
  post_error (ok ts) = none
  post_error (err e) = some (wrap "slack post message: " e)

  -- One post for each event, each a reply to the post before it.
  unfoldable pub reply_all :
      (Event → Message) → Option String → List Event → S → List (Option Err) × S
  reply_all msg ref [] s = ([], s)
  reply_all msg ref (e ∷ es) s =
      let (x, s') = n.api.post (resolve_channel n e) (in_thread n ref (msg e)) s in
      let (errs, t) = reply_all msg (next_ref ref x) es s' in (post_error x ∷ errs, t)

module _ {C S : Type 0} (n : SlackConfig C S) (store : LruCache C String) (msg : Event → Message)
    (messages : (e : Event) → message_options n e ≡ ok (msg e)) (stored : n.store ≡ some store)
    (uid : String) where
  send_bot-stored : (e : Event) (w : Chat C S) → send_bot n e w ≡ send_stored n store e (msg e) w
  unfolding send_bot
  send_bot-stored e w = rw (messages e, stored) refl

  -- The world after an edit is as it was, but that the use of the reference counts.
  abbrev Edited : String → Event → Chat C S → Option Err × Chat C S → Type 0
  Edited ts e w (x, w') =
      let (y, s) = n.api.update (resolve_channel n e) ts (msg e) w.state in
      (x ≡ update_error n y) × (w'.state ≡ s) × (store.peek uid w'.refs ≡ store.peek uid w.refs)

  updated-Edited :
      (ts : String) (e : Event) (w : Chat C S) (refs : C) (o : Option Err × S)
      → n.api.update (resolve_channel n e) ts (msg e) w.state ≡ o
      → store.peek uid refs ≡ store.peek uid w.refs
      → Edited ts e w (updated n refs o)
  updated-Edited ts e w refs (none, s) h same = rw h (refl, refl, same)
  updated-Edited ts e w refs (some x, s) h same = rw h (refl, refl, same)

  send_upsert-Edited :
      (ts : String) (e : Event) (w : Chat C S)
      → e.run_id ≡ uid
      → non_empty_ref (store.peek uid w.refs) ≡ some ts
      → Edited ts e w (send_upsert n store e (msg e) w)
  unfolding send_upsert
  send_upsert-Edited ts e w mine held =
      let refs : C = (store.get e.run_id w.refs).1 in
      let found : non_empty_ref ((store.get e.run_id w.refs).0) ≡ some ts =
        ap non_empty_ref (store.get-peek e.run_id w.refs)
        ∙ ap (λ u. non_empty_ref (store.peek u w.refs)) mine
        ∙ held in
      rw found (
        updated-Edited ts e w refs (n.api.update (resolve_channel n e) ts (msg e) w.state) refl
          (store.peek-get e.run_id uid w.refs))

  -- Upsert, once a message of the run is known: each event edits that message.
  edits_known :
      (ts : String) (es : List Event) (w : Chat C S)
      → (n.thread_mode == thread_mode_grouped) ≡ false
      → (n.mode == mode_upsert) ≡ true
      → All (λ e. e.run_id ≡ uid) es
      → non_empty_ref (store.peek uid w.refs) ≡ some ts
      → send_all n es w ≡ edit_all n msg ts es w.state
  unfolding send_all edit_all
  edits_known ts [] w flat upsert mine held = refl
  edits_known ts (e ∷ es) w flat upsert mine held =
      let sent : send_bot n e w ≡ send_upsert n store e (msg e) w =
        send_bot-stored e w ∙ rw (flat, upsert) refl in
      let edited = send_upsert-Edited ts e w mine.0 held in
      let w' : Chat C S = (send_upsert n store e (msg e) w).1 in
      let ih = edits_known ts es w' flat upsert mine.1 (ap non_empty_ref (edited.2) ∙ held) in
      rw (sent, ih, edited.0, edited.1) refl

  -- A post whose ts is saved.
  saved :
      (refs : C) (ts : String)
      → uid ≢ ""
      → ts ≢ ""
      → non_empty_ref (store.peek uid (save_ref n store uid ts refs)) ≡ some ts
  saved refs ts named given =
      let n1 : (uid == "") ≡ false = ground (arith, eq_iff uid "") in
      let n2 : (ts == "") ≡ false = ground (arith, eq_iff ts "") in
      rw (n1, n2, store.peek-add_self uid ts refs) (rw n2 refl)

  first_post :
      (ts : String) (s : S) (e : Event) (w : Chat C S)
      → e.run_id ≡ uid
      → store.peek uid w.refs ≡ none
      → n.api.post (resolve_channel n e) (msg e) w.state ≡ (ok ts, s)
      → send_upsert n store e (msg e) w ≡ (
        none,
        record { refs = save_ref n store uid ts ((store.get e.run_id w.refs).1); state = s },
      )
  unfolding send_upsert
  first_post ts s e w mine new posts =
      let missing : (store.get e.run_id w.refs).0 ≡ none =
        store.get-peek e.run_id w.refs ∙ ap (λ u. store.peek u w.refs) mine ∙ new in
      rw (missing, posts)
        (ap
          (λ u. (
            none,
            record { refs = save_ref n store u ts ((store.get e.run_id w.refs).1); state = s },
          ))
          mine)

  -- In upsert mode, where the first event of a run is posted with a timestamp, each later event of
  -- the run edits that message and nothing else is posted. Conditions: the message options can be
  -- built, the store is the one that is configured, and it holds nothing of the run at first.
  pub upsert_edits_one_message :
      (ts : String) (s : S) (e : Event) (es : List Event) (w : Chat C S)
      → (n.thread_mode == thread_mode_grouped) ≡ false
      → (n.mode == mode_upsert) ≡ true
      → uid ≢ ""
      → ts ≢ ""
      → All (λ f. f.run_id ≡ uid) (e ∷ es)
      → store.peek uid w.refs ≡ none
      → n.api.post (resolve_channel n e) (msg e) w.state ≡ (ok ts, s)
      → send_all n (e ∷ es) w ≡ (none ∷ (edit_all n msg ts es s).0, (edit_all n msg ts es s).1)
  unfolding send_all
  upsert_edits_one_message ts s e es w flat upsert named given mine new posts =
      let w' : Chat C S = record {
        refs = save_ref n store uid ts ((store.get e.run_id w.refs).1);
        state = s;
      } in
      let sent : send_bot n e w ≡ (none, w') =
        send_bot-stored e w ∙ rw (flat, upsert) (first_post ts s e w mine.0 new posts) in
      rw sent (
        ap (λ r. (none ∷ r.0, r.1))
          (edits_known ts es w' flat upsert mine.1
            (saved ((store.get e.run_id w.refs).1) ts named given)))

  -- After a grouped send: what Slack was asked, and the reference that is kept.
  abbrev Replied : Event → Chat C S → Option Err × Chat C S → Type 0
  Replied e w (x, w') =
      let ref = non_empty_ref (store.peek uid w.refs) in
      let (y, s) = n.api.post (resolve_channel n e) (in_thread n ref (msg e)) w.state in
      (x ≡ post_error n y)
      × (w'.state ≡ s)
      × (non_empty_ref (store.peek uid w'.refs) ≡ next_ref n ref y)

  kept :
      (refs : C) (ts : String) (ref : Option String)
      → uid ≢ ""
      → non_empty_ref (store.peek uid refs) ≡ ref
      → non_empty_ref (store.peek uid (save_ref n store uid ts refs)) ≡ next_ref n ref (ok ts)
  kept refs ts ref named same =
      let n1 : (uid == "") ≡ false = ground (arith, eq_iff uid "") in
      elim (Bool-cases (ts == "")) [
        | inl y ↦ rw (n1, y) same
        | inr m ↦ saved refs ts named (λ e. ground (arith, eq_iff ts "")) ∙ rw m refl
      ]

  posted-Replied :
      (e : Event) (w : Chat C S) (refs : C) (o : Result String × S)
      → e.run_id ≡ uid
      → uid ≢ ""
      → store.peek uid refs ≡ store.peek uid w.refs
      → n.api.post
          (resolve_channel n e)
          (in_thread n (non_empty_ref (store.peek uid w.refs)) (msg e))
          w.state
        ≡ o
      → Replied e w (posted n (some store) e.run_id refs o)
  posted-Replied e w refs (err x, s) mine named same h = rw h (refl, refl, ap non_empty_ref same)
  posted-Replied e w refs (ok ts, s) mine named same h =
      let ref = non_empty_ref (store.peek uid w.refs) in
      rw h (
        refl,
        refl,
        ap (λ u. non_empty_ref (store.peek uid (save_ref n store u ts refs))) mine
            ∙ kept refs ts ref named (ap non_empty_ref same),
      )

  send_grouped-Replied :
      (e : Event) (w : Chat C S)
      → e.run_id ≡ uid
      → uid ≢ ""
      → Replied e w (send_grouped n store e (msg e) w)
  unfolding send_grouped
  send_grouped-Replied e w mine named =
      let refs : C = (store.get e.run_id w.refs).1 in
      let found : non_empty_ref ((store.get e.run_id w.refs).0)
          ≡ non_empty_ref (store.peek uid w.refs) =
        ap non_empty_ref (store.get-peek e.run_id w.refs)
        ∙ ap (λ u. non_empty_ref (store.peek u w.refs)) mine in
      rw found (
        posted-Replied e w refs
          (n.api.post (resolve_channel n e)
            (in_thread n (non_empty_ref (store.peek uid w.refs)) (msg e)) w.state)
          mine named (store.peek-get e.run_id uid w.refs) refl)

  -- In grouped mode, the events of a run are posted each as a reply to the message that was posted
  -- last for the run, not to the first. Conditions: the message options can be built, and the
  -- store is the one that is configured.
  pub grouped_replies_to_last :
      (es : List Event) (w : Chat C S)
      → (n.thread_mode == thread_mode_grouped) ≡ true
      → uid ≢ ""
      → All (λ e. e.run_id ≡ uid) es
      → send_all n es w ≡ reply_all n msg (non_empty_ref (store.peek uid w.refs)) es w.state
  unfolding send_all reply_all
  grouped_replies_to_last [] w grouped named mine = refl
  grouped_replies_to_last (e ∷ es) w grouped named mine =
      let sent : send_bot n e w ≡ send_grouped n store e (msg e) w =
        send_bot-stored e w ∙ rw grouped refl in
      let replied = send_grouped-Replied e w mine.0 named in
      let w' : Chat C S = (send_grouped n store e (msg e) w).1 in
      let ih = grouped_replies_to_last es w' grouped named mine.1 in
      rw (sent, ih, replied.0, replied.1, replied.2) refl
