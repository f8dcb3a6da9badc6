-- ===== src/Accumulator/Handler/Posts.antt =====
-- When the accumulator's handler posts, what it posts, and how often.
use tekton_events_relay.Prelude.{
  true, false, Option, none, some, [], ◌≡◌, refl, arith, ◌==◌, eq_iff, or_else, is_empty,
  if◌then◌else◌, ap, ◌∙◌,
}
use tekton_events_relay.Domain.{Time, Event, resource_pipeline_run}
use tekton_events_relay.Errors.{Err}
use tekton_events_relay.Notifier.{Context}
use tekton_events_relay.Accumulator.{RunState, LruBuffer, new_run, touch, add, flush, ends_run}
use tekton_events_relay.Store.Lru.{LruCache}
use tekton_events_relay.Accumulator.Buffers.{lru_buffer}
use tekton_events_relay.Accumulator.Runs.{held, held-add, flush-held, held-flush}
use tekton_events_relay.Accumulator.Handler.{
  Accumulated, AccumulatorConfig, handle, flush_and_post, aggregate_event, post,
}

-- The run as the event leaves it.
abbrev pub updated : Time → Event → Option RunState → RunState
updated now e s = touch now e (or_else s (new_run e.run_id))

ends_run-IsPipeline : (e : Event) → ends_run e ≡ true → e.resource ≡ resource_pipeline_run
unfolding ends_run
ends_run-IsPipeline e h = ground (arith, eq_iff e.resource resource_pipeline_run)

tasks-touch :
    (now : Time) (e : Event) (s : RunState) → ends_run e ≡ true → (touch now e s).tasks ≡ s.tasks
unfolding touch
tasks-touch now e s h = rw (ends_run-IsPipeline e h) refl

module _ {B S : Type 0} (a : AccumulatorConfig B S) where
  -- An event that does not end a run posts nothing: no error, and the provider is not called.
  pub handle_not_ending :
      (now : Time) (ctx : Context) (e : Event) (w : Accumulated B S)
      → ends_run e ≡ false
      → ((handle a now ctx e w).0 ≡ none) × ((handle a now ctx e w).1.state ≡ w.state)
  unfolding handle
  handle_not_ending now ctx e w h = ground arith

  -- What the end of a run does: the call of the provider with the aggregate of `s`, if `s` has tasks.
  abbrev pub posted : Context → Event → RunState → S → Option Err × S
  posted ctx e s state =
      if is_empty s.tasks
      then (none, state)
      else a.provider.handle ctx (aggregate_event a e.run_id s e) state

  posted_nothing :
      (ctx : Context) (e : Event) (s : RunState) (state : S)
      → s.tasks ≡ []
      → posted ctx e s state ≡ (none, state)
  posted_nothing ctx e s state h = rw h refl

  post_lem :
      (ctx : Context) (e : Event) (s : RunState) (w : Accumulated B S)
      → let (err, w') = post a ctx e.run_id e (some s) w in
        ((err, w'.state) ≡ posted ctx e s w.state) × (w'.buffer ≡ w.buffer)
  post_lem ctx e s w = ground arith

-- A handler whose buffer is the LRU buffer over `lru`.
abbrev pub over :
    {C S : Type 0}
    → LruCache C RunState
    → AccumulatorConfig (LruBuffer C) S
    → AccumulatorConfig (LruBuffer C) S
over lru c = record c { buffer = lru_buffer lru }

module _ {C S : Type 0} (lru : LruCache C RunState) (c : AccumulatorConfig (LruBuffer C) S) where
  handle-single :
      (now : Time) (ctx : Context) (e : Event) (w : Accumulated (LruBuffer C) S)
      → ends_run e ≡ true
      → (e.run_id == "") ≡ false
      → e.accumulator_group_id ≡ ""
      → handle (over lru c) now ctx e w
        ≡ flush_and_post
            (over lru c)
            now
            ctx
            e.run_id
            e
            (record w { buffer = add lru now e.run_id e w.buffer })
  unfolding handle
  handle-single now ctx e w ends run single = ground (
    arith,
    ends_run-IsPipeline e ends,
    eq_iff e.resource resource_pipeline_run,
    eq_iff e.accumulator_group_id "",
  )

  flush_and_post_lem :
      (now : Time) (ctx : Context) (e : Event) (s : RunState) (w : Accumulated (LruBuffer C) S)
      → held lru e.run_id w.buffer ≡ some s
      → let (err, w') = flush_and_post (over lru c) now ctx e.run_id e w in
        ((err, w'.state) ≡ posted (over lru c) ctx e s w.state)
        × (held lru e.run_id w'.buffer ≡ none)
  unfolding flush_and_post
  flush_and_post_lem now ctx e s w h =
      let b = (flush lru e.run_id w.buffer).1 in
      rw (flush-held lru e.run_id w.buffer ∙ h) (
        (post_lem (over lru c) ctx e s (record w { buffer = b })).0,
        ap (held lru e.run_id) (post_lem (over lru c) ctx e s (record w { buffer = b })).1
            ∙ held-flush lru e.run_id w.buffer,
      )

  -- The end of a run that is in no group: the provider is called once with the aggregate of the
  -- tasks that are buffered, or not at all if there are none; its error is the handler's; and the
  -- run is gone from the buffer, whether or not that call failed.
  pub handle_ending :
      (now : Time) (ctx : Context) (e : Event) (w : Accumulated (LruBuffer C) S)
      → ends_run e ≡ true
      → (e.run_id == "") ≡ false
      → e.accumulator_group_id ≡ ""
      → let (err, w') = handle (over lru c) now ctx e w in
        ((err, w'.state)
          ≡ posted (over lru c) ctx e (updated now e (held lru e.run_id w.buffer)) w.state)
        × (held lru e.run_id w'.buffer ≡ none)
  handle_ending now ctx e w ends run single = rw (handle-single now ctx e w ends run single) (
      flush_and_post_lem now ctx e (updated now e (held lru e.run_id w.buffer))
        (record w { buffer = add lru now e.run_id e w.buffer })
        (held-add lru now e.run_id e w.buffer))

  -- The same end of a run a second time, from a retry or a replay: the provider is not called,
  -- also if the first time its call failed and the aggregate was never posted.
  pub handle_ending_again :
      (now later : Time) (ctx : Context) (e : Event) (w : Accumulated (LruBuffer C) S)
      → ends_run e ≡ true
      → (e.run_id == "") ≡ false
      → e.accumulator_group_id ≡ ""
      → let w' = (handle (over lru c) now ctx e w).1 in
        let (err, w'') = handle (over lru c) later ctx e w' in (err ≡ none) × (w''.state ≡ w'.state)
  handle_ending_again now later ctx e w ends run single =
      let w' = (handle (over lru c) now ctx e w).1 in
      let again : (
        (handle (over lru c) later ctx e w').0,
        (handle (over lru c) later ctx e w').1.state,
      )
          ≡ (none, w'.state) =
        (handle_ending later ctx e w' ends run single).0
        ∙ ap (λ s. posted (over lru c) ctx e (updated later e s) w'.state)
            (handle_ending now ctx e w ends run single).1
        ∙ posted_nothing (over lru c) ctx e (touch later e (new_run e.run_id)) w'.state
            (tasks-touch later e (new_run e.run_id) ends) in
      (ap (λ p. p.0) again, ap (λ p. p.1) again)
