-- ===== src/Pipeline/Dispatcher.antt =====
-- internal/pipeline/dispatcher.go: the fan-out of an event to the action handlers.
pub mod Runs
pub mod Fallbacks
pub mod Verdict
use mathlib.Core.List.{Perm}
use tekton_events_relay.Prelude.{
  ℕ, String, Bool, true, false, not, ◌&&◌, Option, none, some, List, [], ◌∷◌, ◌++◌, map, ◌==◌, ◌<>◌,
  Map, lookup, filter, is_empty, or_else, nat_eq, if◌then◌else◌,
}
use tekton_events_relay.Domain.{Event, Envelope}
use tekton_events_relay.Errors.{Err, Errs, nil, cons, wrap, join, is_retryable, join_all}
use tekton_events_relay.Notifier.{
  Context, ActionHandler, action_notify, handler_key, Registry, all_handlers, lookup_handler,
}
use tekton_events_relay.Status.{observe}
use tekton_events_relay.Domain.{Time}
use tekton_events_relay.Pipeline.{World, Outcome, Link}

pub record Dispatcher (S : Type 0) : Type 0 where
  pub registry : Registry S
  pub handler_timeout : ℕ  -- nanoseconds; 0 disables the deadline
  pub fallbacks : Option (Map String)  -- nil unless WithFallbacks was called
  pub fallback_only : Map Bool

-- One goroutine of the group: its handler, the error of the dispatch's context if that was done
-- when the goroutine started, and the time at which the handler returned.
pub record Turn (S : Type 0) : Type 0 where
  pub handler : ActionHandler S
  pub stopped : Option Err
  pub finished_at : Time

-- The order in which the goroutines of a group finish is the runtime's choice, and so is the moment
-- at which the context is done: every handler that is started has one turn.
pub record Scheduler (S : Type 0) : Type 0 where
  pub turns : List (ActionHandler S) → List (Turn S)
  pub one_turn_each : (hs : List (ActionHandler S)) → Perm (map (λ t. t.handler) (turns hs)) hs

pub record HandlerResult (S : Type 0) : Type 0 where
  pub handler : ActionHandler S
  pub err : Option Err

-- What the group leaves behind: the collected errors and results, the error of `g.Wait`.
pub record Run (S : Type 0) : Type 0 where
  pub errs : List Err
  pub results : List (HandlerResult S)
  pub wait_err : Option Err
  pub world : World S

-- `fmt.Errorf("fallback %s for %s: %w", …, errors.Join(r.err, fbErr))`
abbrev pub fallback_error : String → String → Err → Err → Err
fallback_error fallback primary e fb =
    wrap ("fallback " <> fallback <> " for " <> primary <> ": ") (join (cons e (cons fb nil)))

abbrev pub add_error : Option Err → (Err → Err) → List Err → List Err
add_error none f es = es
add_error (some e) f es = f e ∷ es

abbrev pub wait_errs : Option Err → List Err
wait_errs none = []
wait_errs (some e) = e ∷ []

module _ {S : Type 0} where
  abbrev pub is_fallback_only : Dispatcher S → String → Bool
  is_fallback_only d name = or_else (lookup name d.fallback_only) false

  -- The loop over the registered handlers, and its two `continue`s.
  unfoldable pub is_matched : Dispatcher S → Event → ActionHandler S → Bool
  is_matched d e h =
      if is_fallback_only d h.name
      then false
      else if not (e.provider == "")
          && (not (e.provider == h.provider) && not (h.action_type == action_notify))
      then false
      else true

  abbrev pub matched : Dispatcher S → Event → List (ActionHandler S)
  matched d e = filter (is_matched d e) (all_handlers d.registry)

  -- The context of a handler: the deadline where one is configured, and the CloudEvent id.
  abbrev pub handler_context : Dispatcher S → Context → Envelope → Context
  handler_context d ctx env = record {
    cloud_event_id = some env.cloud_event_id;
    timeout = if nat_eq d.handler_timeout 0 then ctx.timeout else some d.handler_timeout;
  }

  -- `fmt.Errorf("%s/%s: %w", handlerKey(h), h.Type(), err)`
  abbrev pub handler_error : ActionHandler S → Err → Err
  handler_error h e = wrap (handler_key h <> "/" <> h.action_type <> ": ") e

  -- What a goroutine appends under the mutex.
  abbrev pub add_result : ActionHandler S → Option Err → Run S → Run S
  add_result h none r = record r { results = (record { handler = h; err = none }) ∷ r.results }
  add_result h (some e) r = record r {
    errs = handler_error h e ∷ r.errs;
    results = (record { handler = h; err = some e }) ∷ r.results;
  }

  -- The call of one handler, and Observe.
  abbrev pub call : Context → Event → Turn S → World S → Option Err × World S
  call ctx e t w =
      let (err, s) = t.handler.handle ctx e w.state in
      (
        err,
        record { state = s; tracker = observe t.finished_at (handler_key t.handler) err w.tracker },
      )

  -- The goroutines of the group, in the order in which they finish. A goroutine that finds the
  -- context done returns its error, and `g.Wait` returns the first such.
  unfoldable pub run_turns : Context → Event → List (Turn S) → World S → Run S
  run_turns ctx e [] w = record { errs = []; results = []; wait_err = none; world = w }
  run_turns ctx e (t ∷ ts) w = elim t.stopped [
    | some stop ↦ let rest = run_turns ctx e ts w in record rest { wait_err = some stop }
    | none ↦
        let (err, w') = call ctx e t w in
        let rest = run_turns ctx e ts w' in add_result t.handler err rest
  ]

  -- The handler that stands in for one that failed for good, with its name.
  unfoldable pub fallback_of :
      Dispatcher S → Map String → HandlerResult S → Option (Err × String × ActionHandler S)
  fallback_of d names r = elim r.err [
    | none ↦ none
    | some e ↦ if is_retryable e then none else elim (lookup r.handler.name names) [
      | none ↦ none
      | some name ↦
          if name == ""
          then none
          else elim (lookup_handler d.registry name) [ none ↦ none | some fb ↦ some (e, name, fb) ]
    ]
  ]

  -- executeFallbacks, one result after the other.
  unfoldable pub execute_fallbacks :
      Dispatcher S → Map String → Context → Event → List (HandlerResult S) → S → List Err × S
  execute_fallbacks d names ctx e [] s = ([], s)
  execute_fallbacks d names ctx e (r ∷ rs) s = elim (fallback_of d names r) [
    | none ↦ execute_fallbacks d names ctx e rs s
    | some (cause, name, fb) ↦
        let (fb_err, s') = fb.handle ctx e s in
        let (errs, s'') = execute_fallbacks d names ctx e rs s' in
        (add_error fb_err (fallback_error name r.handler.name cause) errs, s'')
  ]

  abbrev pub fallback_phase :
      Dispatcher S
      → Option (Map String)
      → Context
      → Event
      → List (HandlerResult S)
      → S
      → List Err × S
  fallback_phase d none ctx e results s = ([], s)
  fallback_phase d (some names) ctx e results s = execute_fallbacks d names ctx e results s

  abbrev conclude : Option Err → Link S → Link S
  conclude (some e) next ctx env w = record { err = some e; env = env; world = w }
  conclude none next ctx env w = next ctx env w

  abbrev pub group : Scheduler S → Dispatcher S → Context → Envelope → World S → Run S
  group sched d ctx env w =
      run_turns (handler_context d ctx env) env.report (sched.turns (matched d env.report)) w

  -- Dispatcher.Handle
  unfoldable pub dispatch : Scheduler S → Dispatcher S → Link S → Link S
  dispatch sched d next ctx env w =
      if is_empty (all_handlers d.registry)
      then next ctx env w
      else let r = group sched d ctx env w in
        let (fb_errs, s) =
          fallback_phase d d.fallbacks (handler_context d ctx env) env.report r.results
            r.world.state in
        conclude (join_all (r.errs ++ (fb_errs ++ wait_errs r.wait_err))) next ctx env
          (record { state = s; tracker = r.world.tracker })
