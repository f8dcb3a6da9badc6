-- ===== src/Pipeline/Dispatcher/Runs.antt =====
-- Which handlers a dispatch calls: the started turns, each once, in their order.
use mathlib.Core.List.{Perm}
use mathlib.Core.List.Perm
use tekton_events_relay.Prelude.{
  Bool, true, false, not, Option, none, some, List, [], ◌∷◌, ◌++◌, map, ◌≡◌, refl, ◌∙◌, ap, arith,
  filter, all, is_some, is_empty, Bool-cases, Option-cases, inl, inr,
}
use tekton_events_relay.Domain.{Event, Envelope}
use tekton_events_relay.Errors.{Err, join_all}
use tekton_events_relay.Notifier.{Context, ActionHandler, all_handlers}
use tekton_events_relay.Pipeline.{World, end_of_chain}
use tekton_events_relay.Pipeline.Dispatcher.{
  is_matched, wait_errs, Dispatcher, Turn, Scheduler, HandlerResult, matched, handler_context, call,
  run_turns, group, dispatch,
}

module _ {S : Type 0} where
  -- The state after a row of calls.
  abbrev pub calls : Context → Event → List (ActionHandler S) → S → S
  calls ctx e [] s = s
  calls ctx e (h ∷ hs) s = calls ctx e hs (h.handle ctx e s).1

  -- What a row of calls returns.
  abbrev pub returns : Context → Event → List (ActionHandler S) → S → List (Option Err)
  returns ctx e [] s = []
  returns ctx e (h ∷ hs) s = let (err, s') = h.handle ctx e s in err ∷ returns ctx e hs s'

  -- A row of calls, each handler with what it returned.
  abbrev pub reports : Context → Event → List (ActionHandler S) → S → List (HandlerResult S)
  reports ctx e [] s = []
  reports ctx e (h ∷ hs) s =
      let (err, s') = h.handle ctx e s in record { handler = h; err = err } ∷ reports ctx e hs s'

  -- The handlers of the turns whose goroutine found the context alive.
  abbrev pub started : List (Turn S) → List (ActionHandler S)
  started [] = []
  started (t ∷ ts) = elim t.stopped [ none ↦ t.handler ∷ started ts | some e ↦ started ts ]

  abbrev pub all_run : List (Turn S) → Bool
  all_run = all (λ t. not (is_some t.stopped))

  pub state-run_turns :
      (ctx : Context) (e : Event) (ts : List (Turn S)) (w : World S)
      → (run_turns ctx e ts w).world.state ≡ calls ctx e (started ts) w.state
  unfolding run_turns
  state-run_turns ctx e [] w = refl
  state-run_turns ctx e (t ∷ ts) w =
      ground (arith, state-run_turns ctx e ts w, state-run_turns ctx e ts (call ctx e t w).1)

  pub results-run_turns :
      (ctx : Context) (e : Event) (ts : List (Turn S)) (w : World S)
      → (run_turns ctx e ts w).results ≡ reports ctx e (started ts) w.state
  unfolding run_turns
  results-run_turns ctx e [] w = refl
  results-run_turns ctx e (t ∷ ts) w =
      ground (arith, results-run_turns ctx e ts w, results-run_turns ctx e ts (call ctx e t w).1)

  started_all : (ts : List (Turn S)) → all_run ts ≡ true → started ts ≡ map (λ t. t.handler) ts
  started_all [] h = refl
  started_all (t ∷ ts) h = ground (arith, started_all ts)

  matched_none :
      (d : Dispatcher S) (e : Event) → is_empty (all_handlers d.registry) ≡ true → matched d e ≡ []
  matched_none d e none_left = go (all_handlers d.registry) none_left
    where
      go : (hs : List (ActionHandler S)) → is_empty hs ≡ true → filter (is_matched d e) hs ≡ []
      go [] h = refl
      go (x ∷ xs) h = cc

  state-dispatch :
      (sched : Scheduler S) (d : Dispatcher S) (ctx : Context) (env : Envelope) (w : World S)
      → d.fallbacks ≡ none
      → is_empty (all_handlers d.registry) ≡ false
      → (dispatch sched d end_of_chain ctx env w).world.state
        ≡ (group sched d ctx env w).world.state
  unfolding dispatch end_of_chain
  state-dispatch sched d ctx env w no_fallbacks some_handlers = ground (
    arith,
    Option-cases (
        join_all
          ((group sched d ctx env w).errs ++ ([] ++ wait_errs (group sched d ctx env w).wait_err))),
  )

  pub env-dispatch :
      (sched : Scheduler S) (d : Dispatcher S) (ctx : Context) (env : Envelope) (w : World S)
      → (dispatch sched d end_of_chain ctx env w).env ≡ env
  unfolding dispatch end_of_chain
  env-dispatch sched d ctx env w = ground arith

  -- Without fallbacks and with a context that stays alive, a dispatch calls every matched handler
  -- exactly once, with the handlers' context and the event, in some order, and the handlers' state
  -- afterwards is what those calls leave.
  pub dispatch-calls_each_once :
      (sched : Scheduler S) (d : Dispatcher S) (ctx : Context) (env : Envelope) (w : World S)
      → d.fallbacks ≡ none
      → all_run (sched.turns (matched d env.report)) ≡ true
      → (hs : List (ActionHandler S)) × Perm hs (matched d env.report)
        × ((dispatch sched d end_of_chain ctx env w).world.state
            ≡ calls (handler_context d ctx env) env.report hs w.state)
  dispatch-calls_each_once sched d ctx env w no_fallbacks alive =
      elim (Bool-cases (is_empty (all_handlers d.registry))) [
        | inl e ↦ (
          [],
          rw (matched_none d env.report e) (Perm.refl []),
          unfold dispatch end_of_chain in rw e refl,
        )
        | inr e ↦ (
          map (λ t. t.handler) (sched.turns (matched d env.report)),
          sched.one_turn_each (matched d env.report),
          state-dispatch sched d ctx env w no_fallbacks e
              ∙ state-run_turns (handler_context d ctx env) env.report
                  (sched.turns (matched d env.report)) w
              ∙ ap (λ hs. calls (handler_context d ctx env) env.report hs w.state)
                  (started_all (sched.turns (matched d env.report)) alive),
        )
      ]
