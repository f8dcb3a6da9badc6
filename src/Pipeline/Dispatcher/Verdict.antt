-- ===== src/Pipeline/Dispatcher/Verdict.antt =====
-- The error of a dispatch: when there is one, and when it is retryable.
use tekton_events_relay.Prelude.{
  true, false, not, all, Map, String, ◌||◌, Option, none, some, List, [], ◌∷◌, ◌++◌, ◌≡◌, refl, ◌∙◌,
  ap, arith, any, any-append, is_some, is_empty,
}
use tekton_events_relay.Domain.{Event, Envelope}
use tekton_events_relay.Errors.{Err, is_retryable, is_retryable?, join_all, is_retryable-join_all}
use tekton_events_relay.Notifier.{Context, ActionHandler, all_handlers}
use tekton_events_relay.Pipeline.{World, end_of_chain}
use tekton_events_relay.Pipeline.Dispatcher.Runs.{
  calls, returns, reports, started, all_run, results-run_turns, state-run_turns,
}
use tekton_events_relay.Pipeline.Dispatcher.Fallbacks.{
  needs_none, no_errors-execute_fallbacks, all_replacements, retryable-fallback_phase,
}
use tekton_events_relay.Pipeline.Dispatcher.{
  Dispatcher, Turn, Scheduler, HandlerResult, handler_context, run_turns, group, dispatch,
  fallback_phase, wait_errs, conclude, call, matched,
}

is_some-join_all : (es : List Err) → is_some (join_all es) ≡ not (is_empty es)
unfolding join_all
is_some-join_all [] = refl
is_some-join_all (e ∷ es) = refl

not_empty-append :
    (xs ys : List Err) → not (is_empty (xs ++ ys)) ≡ (not (is_empty xs) || not (is_empty ys))
not_empty-append [] ys = refl
not_empty-append (x ∷ xs) ys = refl

module _ {S : Type 0} where
  -- The error of the context that the group's Wait returns: that of the first turn that met it.
  abbrev pub stopped_by : List (Turn S) → Option Err
  stopped_by [] = none
  stopped_by (t ∷ ts) = elim t.stopped [ some stop ↦ some stop | none ↦ stopped_by ts ]

  wait_err-run_turns :
      (ctx : Context) (e : Event) (ts : List (Turn S)) (w : World S)
      → (run_turns ctx e ts w).wait_err ≡ stopped_by ts
  unfolding run_turns
  wait_err-run_turns ctx e [] w = refl
  wait_err-run_turns ctx e (t ∷ ts) w =
      ground (arith, wait_err-run_turns ctx e ts w, wait_err-run_turns ctx e ts (call ctx e t w).1)

  stopped_by-all_run : (ts : List (Turn S)) → is_some (stopped_by ts) ≡ not (all_run ts)
  stopped_by-all_run [] = refl
  stopped_by-all_run (t ∷ ts) = ground (arith, stopped_by-all_run ts)

  retryable-run_turns :
      (ctx : Context) (e : Event) (ts : List (Turn S)) (w : World S)
      → any is_retryable (run_turns ctx e ts w).errs
        ≡ any is_retryable? (returns ctx e (started ts) w.state)
  unfolding run_turns is_retryable
  retryable-run_turns ctx e [] w = refl
  retryable-run_turns ctx e (t ∷ ts) w =
      ground
        (arith, retryable-run_turns ctx e ts w, retryable-run_turns ctx e ts (call ctx e t w).1)

  errs-run_turns :
      (ctx : Context) (e : Event) (ts : List (Turn S)) (w : World S)
      → not (is_empty (run_turns ctx e ts w).errs)
        ≡ any is_some (returns ctx e (started ts) w.state)
  unfolding run_turns
  errs-run_turns ctx e [] w = refl
  errs-run_turns ctx e (t ∷ ts) w =
      ground (arith, errs-run_turns ctx e ts w, errs-run_turns ctx e ts (call ctx e t w).1)

  needs_none-reports :
      (ctx : Context) (e : Event) (hs : List (ActionHandler S)) (s : S)
      → any is_some (returns ctx e hs s) ≡ false
      → all needs_none (reports ctx e hs s) ≡ true
  needs_none-reports ctx e [] s h = refl
  needs_none-reports ctx e (x ∷ hs) s h =
      ground (arith, needs_none-reports ctx e hs (x.handle ctx e s).1)

  quiet_fallbacks :
      (d : Dispatcher S) (ctx : Context) (e : Event) (rs : List (HandlerResult S)) (s : S)
      → all needs_none rs ≡ true
      → fallback_phase d d.fallbacks ctx e rs s ≡ ([], s)
  quiet_fallbacks d ctx e rs s h = go d.fallbacks
    where
      go : (names : Option (Map String)) → fallback_phase d names ctx e rs s ≡ ([], s)
      go none = refl
      go (some names) = no_errors-execute_fallbacks d names ctx e rs s h

  err-conclude :
      (e : Option Err) (ctx : Context) (env : Envelope) (w : World S)
      → (conclude e end_of_chain ctx env w).err ≡ e
  unfolding end_of_chain
  err-conclude none ctx env w = refl
  err-conclude (some e) ctx env w = refl

  -- The errors that a dispatch joins.
  abbrev pub dispatch_errs : Scheduler S → Dispatcher S → Context → Envelope → World S → List Err
  dispatch_errs sched d ctx env w =
      let r = group sched d ctx env w in
      r.errs
      ++ ((fallback_phase d d.fallbacks (handler_context d ctx env) env.report r.results
            r.world.state).0
          ++ wait_errs r.wait_err)

  err-dispatch :
      (sched : Scheduler S) (d : Dispatcher S) (ctx : Context) (env : Envelope) (w : World S)
      → is_empty (all_handlers d.registry) ≡ false
      → (dispatch sched d end_of_chain ctx env w).err ≡ join_all (dispatch_errs sched d ctx env w)
  unfolding dispatch
  err-dispatch sched d ctx env w some_handlers =
      let r = group sched d ctx env w in
      rw some_handlers (err-conclude (join_all (dispatch_errs sched d ctx env w)) ctx env _)

  module _ (sched : Scheduler S) (d : Dispatcher S) (ctx : Context) (env : Envelope)
      (w : World S) where
    -- The goroutines of the dispatch, and the errors that the handlers that ran returned.
    abbrev pub turns_of : List (Turn S)
    turns_of = sched.turns (matched d env.report)

    abbrev pub returned : List (Option Err)
    returned = returns (handler_context d ctx env) env.report (started turns_of) w.state

    -- What the handlers that stand in for those returned, behind them.
    abbrev pub returned_by_fallbacks : List (Option Err)
    returned_by_fallbacks =
        let hctx = handler_context d ctx env in
        returns hctx env.report
          (all_replacements d d.fallbacks (reports hctx env.report (started turns_of) w.state))
          (calls hctx env.report (started turns_of) w.state)

    fallback_errs : List Err
    fallback_errs =
        let r = group sched d ctx env w in
        (fallback_phase d d.fallbacks (handler_context d ctx env) env.report r.results
          r.world.state).0

    group-quiet : any is_some returned ≡ false → fallback_errs ≡ []
    unfolding fallback_errs
    group-quiet h =
        let hctx = handler_context d ctx env in
        let r = group sched d ctx env w in
        let quiet : all needs_none r.results ≡ true =
          ap (all needs_none) (results-run_turns hctx env.report turns_of w)
          ∙ needs_none-reports hctx env.report (started turns_of) w.state h in
        ap (λ o. o.0) (quiet_fallbacks d hctx env.report r.results r.world.state quiet)

    fallback_errs-retryable :
        any is_retryable fallback_errs ≡ any is_retryable? returned_by_fallbacks
    unfolding fallback_errs
    fallback_errs-retryable =
        let hctx = handler_context d ctx env in
        let r = group sched d ctx env w in
        retryable-fallback_phase d d.fallbacks hctx env.report r.results r.world.state
        ∙ rw
            (
              results-run_turns hctx env.report turns_of w,
              state-run_turns hctx env.report turns_of w,
            )
            refl

    -- A dispatch to at least one registered handler ends in an error exactly when a handler that
    -- was called returned one, or a goroutine found the context done and called none; a fallback
    -- that succeeds does not take the error of its handler back.
    pub dispatch_fails_iff :
        is_empty (all_handlers d.registry) ≡ false
        → is_some (dispatch sched d end_of_chain ctx env w).err
          ≡ (any is_some returned || not (all_run turns_of))
    unfolding fallback_errs
    dispatch_fails_iff some_handlers =
        let r = group sched d ctx env w in
        ap is_some (err-dispatch sched d ctx env w some_handlers)
        ∙ is_some-join_all (dispatch_errs sched d ctx env w)
        ∙ ground (
          arith,
          errs-run_turns (handler_context d ctx env) env.report turns_of w,
          wait_err-run_turns (handler_context d ctx env) env.report turns_of w,
          stopped_by-all_run turns_of,
          group-quiet,
          not_empty-append r.errs (fallback_errs ++ wait_errs r.wait_err),
          not_empty-append fallback_errs (wait_errs r.wait_err),
        )

    -- The error of a dispatch to at least one registered handler is retryable exactly when an
    -- error is that a called handler returned, that a handler called in its stead returned, or the
    -- first one of the context that a goroutine met: the labels and the joining neither hide nor
    -- add a retryable error.
    pub dispatch_retryable_iff :
        is_empty (all_handlers d.registry) ≡ false
        → is_retryable? (dispatch sched d end_of_chain ctx env w).err ≡ (
            any is_retryable? returned
            || (any is_retryable? returned_by_fallbacks || is_retryable? (stopped_by turns_of)))
    unfolding fallback_errs
    dispatch_retryable_iff some_handlers =
        let r = group sched d ctx env w in
        ap is_retryable? (err-dispatch sched d ctx env w some_handlers)
        ∙ is_retryable-join_all (dispatch_errs sched d ctx env w)
        ∙ any-append is_retryable r.errs (fallback_errs ++ wait_errs r.wait_err)
        ∙ ground (
          arith,
          retryable-run_turns (handler_context d ctx env) env.report turns_of w,
          wait_err-run_turns (handler_context d ctx env) env.report turns_of w,
          fallback_errs-retryable,
          any-append is_retryable fallback_errs (wait_errs r.wait_err),
        )
