-- ===== src/Notifier/Wrappers.antt =====
-- The wrappers around an action handler: internal/notifier/filter.go, conditional.go,
-- dedupe_handler.go and dedupestore.go, and internal/notifier/middleware.
pub mod Laws
use tekton_events_relay.Prelude.{
  String, Bool, true, false, not, ◌&&◌, ◌||◌, Option, none, some, List, [], ◌∷◌, ◌==◌, ◌<>◌, any,
  map, is_empty, or_else, if◌then◌else◌,
}
use tekton_events_relay.Domain.{
  Event, resource_task_run, resource_pipeline_run, resource_custom_run, resource_event_listener,
}
use tekton_events_relay.Errors.{Err, Result, ok, err}
use tekton_events_relay.Notifier.{Context, ActionHandler}

pub record FilterList : Type 0 where
  pub allow : List String
  pub deny : List String

pub record FilterConfig : Type 0 where
  pub tasks : FilterList
  pub pipelines : FilterList
  pub custom_runs : FilterList
  pub event_listeners : FilterList

-- The lists and the name that the switch on the resource selects, if it selects any.
abbrev pub selected : FilterConfig → Event → Option (FilterList × String)
selected cfg e =
    if e.resource == resource_task_run
    then some (cfg.tasks, e.task_name)
    else if e.resource == resource_pipeline_run
    then some (cfg.pipelines, e.pipeline_name)
    else if e.resource == resource_custom_run
    then some (cfg.custom_runs, e.task_name)
    else if e.resource == resource_event_listener
    then some (cfg.event_listeners, e.event_listener_name)
    else none

-- buildMap, as the list of its keys; `lower` is strings.ToLower.
unfoldable pub build_map : (String → String) → List String → List String
build_map lower items = map lower items

abbrev pub mem_key : String → List String → Bool
mem_key k keys = any (λ j. k == j) keys

abbrev pub passes_lists : (String → String) → Option (FilterList × String) → Bool
passes_lists lower none = true
passes_lists lower (some (lists, name)) =
    let k = lower name in
    if name == ""
    then true
    else if mem_key k (build_map lower lists.deny)
    then false
    else is_empty (build_map lower lists.allow) || mem_key k (build_map lower lists.allow)

-- FilteredHandler.Handle passes the event on.
unfoldable pub passes_action_filter : (String → String) → FilterConfig → Event → Bool
unfolding build_map
passes_action_filter lower cfg e = passes_lists lower (selected cfg e)

-- compositeKey of dedupestore.go
unfoldable pub composite_key : String → String → String
composite_key handler_name event_id = "notif:" <> handler_name <> ":" <> event_id

-- The event as contextPerTaskHandler.Handle passes it on.
unfoldable pub context_per_task : Event → Event
context_per_task e =
    let task =
      if not (e.pipeline_task_name == "")
      then e.pipeline_task_name
      else if not (e.task_name == "")
      then e.task_name
      else e.run_name in
    if e.resource == resource_task_run
    then record e { context = if e.context == "" then task else e.context <> "/" <> task }
    else e

module _ {S : Type 0} where
  -- NewFilteredHandler
  unfoldable pub filtered_handler :
      (String → String) → Option FilterConfig → ActionHandler S → ActionHandler S
  unfolding passes_action_filter
  filtered_handler lower none inner = inner
  filtered_handler lower (some cfg) inner = record inner {
    handle =
        λ ctx e s. if passes_action_filter lower cfg e then inner.handle ctx e s else (none, s);
  }

  -- The three ways on from the guard's answer.
  abbrev pub after_guard : ActionHandler S → Result Bool → Context → Event → S → Option Err × S
  after_guard inner (err x) ctx e s = (some x, s)
  after_guard inner (ok true) ctx e s = inner.handle ctx e s
  after_guard inner (ok false) ctx e s = (none, s)

  -- NewConditionalHandler; a guard is the evaluation of a compiled CEL program.
  unfoldable pub conditional_handler :
      Option (Event → Result Bool) → ActionHandler S → ActionHandler S
  conditional_handler none inner = inner
  conditional_handler (some program) inner = record inner {
    handle = λ ctx e s. after_guard inner (program e) ctx e s;
  }

  -- The three ways on from the answer of the notifier's dedupe store.
  abbrev pub after_pair_seen : ActionHandler S → Result Bool → Context → Event → S → Option Err × S
  after_pair_seen inner (err x) ctx e s = inner.handle ctx e s
  after_pair_seen inner (ok true) ctx e s = inner.handle ctx e s
  after_pair_seen inner (ok false) ctx e s = (none, s)

  -- NewNotifierDedupeStore: `first_seen` is the shared store's.
  unfoldable pub pair_first_seen :
      (String → S → Result Bool × S) → String → String → S → Result Bool × S
  unfolding composite_key
  pair_first_seen first_seen handler_name event_id s =
      first_seen (composite_key handler_name event_id) s

  abbrev handle_deduped :
      (String → S → Result Bool × S) → ActionHandler S → Context → Event → S → Option Err × S
  handle_deduped first_seen inner ctx e s =
      let id = or_else ctx.cloud_event_id "" in
      let (seen, s') = pair_first_seen first_seen inner.name id s in
      if id == "" then inner.handle ctx e s else after_pair_seen inner seen ctx e s'

  -- NewDedupeHandler
  unfoldable pub dedupe_handler :
      Option (String → S → Result Bool × S) → ActionHandler S → ActionHandler S
  unfolding pair_first_seen
  dedupe_handler none inner = inner
  dedupe_handler (some first_seen) inner = record inner { handle = handle_deduped first_seen inner }

  -- WrapWithContextPerTask; its Close does not close the handler inside.
  unfoldable pub context_per_task_handler : Bool → ActionHandler S → ActionHandler S
  unfolding context_per_task
  context_per_task_handler false inner = inner
  context_per_task_handler true inner = record inner {
    handle = λ ctx e s. inner.handle ctx (context_per_task e) s;
    close = λ s. (none, s);
  }

  abbrev handle_limited :
      (Context → S → Option Err × S) → ActionHandler S → Context → Event → S → Option Err × S
  handle_limited wait inner ctx e s =
      let (refused, s') = wait ctx s in
      elim refused [ some x ↦ (some x, s') | none ↦ inner.handle ctx e s' ]

  -- WrapWithRateLimit; `wait` is Wait of a golang.org/x/time/rate limiter.
  unfoldable pub rate_limited_handler :
      Option (Context → S → Option Err × S) → ActionHandler S → ActionHandler S
  rate_limited_handler none inner = inner
  rate_limited_handler (some wait) inner = record inner { handle = handle_limited wait inner }
