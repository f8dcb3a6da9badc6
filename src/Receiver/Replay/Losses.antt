-- ===== src/Receiver/Replay/Losses.antt =====
-- What a replay counts, keeps and loses.
use tekton_events_relay.Prelude.{
  ℕ, ◌+◌, true, Option, none, some, List, [], ◌∷◌, ◌≡◌, refl, arith, length, filter, is_some,
  Option-cases, Bool-cases, inl, inr,
}
use tekton_events_relay.Domain.{Envelope}
use tekton_events_relay.Errors.{Err, Result, ok, err}
use tekton_events_relay.Pipeline.{Outcome, Link}
use tekton_events_relay.Pipeline.Links.{invalid, passes_filter}
use tekton_events_relay.Pipeline.Chain.{Setup, relay_chain}
use tekton_events_relay.Pipeline.Chain.Laws.{asked}
use tekton_events_relay.Dlq.{DeadEvent, Queue}
use tekton_events_relay.Receiver.{Relay, request_context}
use tekton_events_relay.Receiver.Redelivery.{DedupeLaws, later_delivery}
use tekton_events_relay.Receiver.Replay.{
  ReplayResult, replay_entry, replay_all, count_removed, count_failed, overridden_entry,
  after_chain, run_entry, run_overridden,
}
use tekton_events_relay.Receiver.Replay.Override.{OverrideTools, ReplayOverride, apply_override}

abbrev pub counted : ReplayResult → ℕ
counted r = r.replayed + r.failed + r.remove_failed

abbrev pub with_envelope : List DeadEvent → List DeadEvent
with_envelope = filter (λ e. is_some e.envelope)

module _ {S Q : Type 0} (chain : Link S) (queue : Queue Q) where
  counted-after_chain :
      (e : DeadEvent) (o : Outcome S) (q : Q) (res : ReplayResult)
      → counted (after_chain queue e o q res).0 ≡ counted res + 1
  counted-after_chain e o q res =
      ground (arith, Option-cases o.err, Option-cases (queue.remove e.id q).0)

  counted-run_entry :
      (e : DeadEvent) (env : Option Envelope) (r : Relay S Q) (res : ReplayResult)
      → is_some env ≡ true
      → counted (run_entry chain queue e env r res).0 ≡ counted res + 1
  counted-run_entry e none r res h = cc
  counted-run_entry e (some env) r res h =
      counted-after_chain e (chain request_context env r.world) r.dead res

module _ {S Q : Type 0} (tools : OverrideTools) (override : Option ReplayOverride) (chain : Link S)
    (queue : Queue Q) where
  envelope-overridden :
      (e e' : DeadEvent)
      → overridden_entry tools override e ≡ ok e'
      → is_some e.envelope ≡ true
      → is_some e'.envelope ≡ true
  unfolding apply_override
  envelope-overridden e e' h some_env = ground arith

  counted-run_overridden :
      (e : DeadEvent) (x : Result DeadEvent) (r : Relay S Q) (res : ReplayResult)
      → overridden_entry tools override e ≡ x
      → is_some e.envelope ≡ true
      → counted (run_overridden chain queue e x r res).0 ≡ counted res + 1
  counted-run_overridden e (err x) r res h some_env = omega arith
  counted-run_overridden e (ok e') r res h some_env =
      counted-run_entry chain queue e e'.envelope r res (envelope-overridden e e' h some_env)

  counted-replay_entry :
      (e : DeadEvent) (r : Relay S Q) (res : ReplayResult)
      → counted (replay_entry tools override chain queue e r res).0
        ≡ counted res + length (with_envelope (e ∷ []))
  unfolding replay_entry
  counted-replay_entry e r res = elim (Bool-cases (is_some e.envelope)) [
    | inl here ↦
        rw here (counted-run_overridden e (overridden_entry tools override e) r res refl here)
    | inr missing ↦ rw missing (omega arith)
  ]

  -- A replay counts every event with an envelope once, as replayed, as failed, or as not removed;
  -- one without an envelope is not counted.
  pub counted-replay_all :
      (es : List DeadEvent) (r : Relay S Q) (res : ReplayResult)
      → counted (replay_all tools override chain queue es r res).0
        ≡ counted res + length (with_envelope es)
  unfolding replay_all
  counted-replay_all [] r res = omega arith
  counted-replay_all (e ∷ es) r res =
      let (res', r') = replay_entry tools override chain queue e r res in
      ground (arith, counted-replay_entry e r res, counted-replay_all es r' res')

module _ {S Q : Type 0} (c : Setup S) (laws : DedupeLaws S c.store) (tools : OverrideTools)
    (queue : Queue Q) (e : DeadEvent) (env : Envelope) (r : Relay S Q) (res : ReplayResult) where
  -- The replay, with no override, of a valid and unfiltered event whose id the store still
  -- remembers calls no handler; the event is nevertheless removed from the queue and, if that
  -- succeeds, counted as replayed.
  pub replay_of_seen_loses :
      e.envelope ≡ some env
      → invalid env ≡ none
      → passes_filter c.path_match c.filter env ≡ true
      → laws.seen env.cloud_event_id r.world.state ≡ true
      → replay_entry tools none (relay_chain c) queue e r res ≡ (
        count_removed (queue.remove e.id r.dead).0 res,
        record { world = asked c request_context env r.world; dead = (queue.remove e.id r.dead).1 },
      )
  unfolding replay_entry
  replay_of_seen_loses here valid passing old = ground (
    arith,
    here,
    later_delivery {Q = Q} c laws none env (record { world = r.world; dead = r.dead }) valid passing
        old,
  )

module _ {S Q : Type 0} (tools : OverrideTools) (chain : Link S) (queue : Queue Q) where
  -- An event whose handlers fail at a replay with no override stays in the queue: the queue is not
  -- touched, and the event is counted as failed under its id.
  pub replay_of_failed_keeps :
      (e : DeadEvent) (env : Envelope) (r : Relay S Q) (res : ReplayResult) (x : Err)
      → e.envelope ≡ some env
      → (chain request_context env r.world).err ≡ some x
      → replay_entry tools none chain queue e r res ≡ (
        count_failed e res,
        record { world = (chain request_context env r.world).world; dead = r.dead },
      )
  unfolding replay_entry
  replay_of_failed_keeps e env r res x here fails = ground arith
