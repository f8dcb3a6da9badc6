-- ===== src/Pipeline/Links.antt =====
-- The links before the dispatcher: validator.go, filter.go, deduper.go and enricher.go.
pub mod Namespaces
use tekton_events_relay.Prelude.{
  String, Bool, true, false, not, ◌&&◌, ◌||◌, Option, none, some, List, [], ◌∷◌, ◌==◌, ◌<>◌,
  ends_with, is_empty, if◌then◌else◌,
}
use tekton_events_relay.Domain.{
  Event, Envelope, Resource, resource_task_run, resource_pipeline_run, resource_custom_run,
  resource_event_listener,
}
use tekton_events_relay.Errors.{Err, plain, Result, ok, err}
use tekton_events_relay.Notifier.{Context}
use tekton_events_relay.Pipeline.{World, Outcome, Link, done, fail}
use Namespaces.{PathMatch, namespace_allowed}

-- The error of the validator for an envelope, if it has one.
unfoldable pub invalid : Envelope → Option Err
invalid env =
    if env.cloud_event_id == ""
    then some (plain "missing Ce-Id")
    else if not (env.report.resource == "eventlistener") && env.report.provider == ""
    then some (plain "missing tekton.dev/tekton-events-relay.scm.provider annotation")
    else if env.report.run_name == ""
    then some (plain ("missing RunName for " <> env.cloud_event_type))
    else none

pub record EventFilter : Type 0 where
  pub allow_task_run : Bool
  pub allow_pipeline_run : Bool
  pub allow_custom_run : Bool
  pub allow_event_listener : Bool
  pub ignore_unknown : Bool
  pub allow_namespaces : List String
  pub deny_namespaces : List String

-- The switch on the resource, its default included.
unfoldable pub resource_allowed : EventFilter → Resource → Bool
resource_allowed f r =
    if r == resource_task_run
    then f.allow_task_run
    else if r == resource_pipeline_run
    then f.allow_pipeline_run
    else if r == resource_custom_run
    then f.allow_custom_run
    else if r == resource_event_listener
    then f.allow_event_listener
    else not f.ignore_unknown

-- The three early returns of EventFilter.Handle.
unfoldable pub passes_filter : PathMatch → EventFilter → Envelope → Bool
passes_filter pm f env =
    if f.ignore_unknown && ends_with env.cloud_event_type ".unknown.v1"
    then false
    else if not (resource_allowed f env.report.resource)
    then false
    else namespace_allowed pm f.deny_namespaces f.allow_namespaces env.report.namespace

-- store.DedupeStore: FirstSeen records the id, and says whether it is new.
pub record DedupeStore (S : Type 0) : Type 0 where
  pub first_seen : String → S → Result Bool × S

unfoldable pub dashboard_kind : Resource → Option String
dashboard_kind r =
    if r == resource_task_run
    then some "taskruns"
    else if r == resource_pipeline_run
    then some "pipelineruns"
    else if r == resource_custom_run
    then some "customruns"
    else none

-- dashboardLink; `escape` is url.PathEscape.
unfoldable pub dashboard_link : (String → String) → String → Event → String
dashboard_link escape dashboard_url r = elim (dashboard_kind r.resource) [
  | none ↦ ""
  | some kind ↦
      dashboard_url
      <> "/#/namespaces/"
      <> escape r.namespace
      <> "/"
      <> kind
      <> "/"
      <> escape r.run_name
]

-- The envelope that Enricher.Handle passes on: it writes through the pointer.
unfoldable pub enriched : (String → String) → String → Envelope → Envelope
enriched escape dashboard_url env =
    if not (dashboard_url == "") && env.report.target_url == ""
    then (record env {
      report = record env.report { target_url = dashboard_link escape dashboard_url env.report };
    })
    else env

module _ {S : Type 0} where
  -- Validator.Handle behind its nil test, which `receive_envelope` of Chain makes.
  unfoldable pub validator : Link S → Link S
  unfolding invalid
  validator next ctx env w = elim (invalid env) [ some e ↦ fail e env w | none ↦ next ctx env w ]

  -- EventFilter.Handle
  unfoldable pub event_filter : PathMatch → EventFilter → Link S → Link S
  unfolding passes_filter
  event_filter pm f next ctx env w = if passes_filter pm f env then next ctx env w else done env w

  -- The three ways on from the answer of the store: it failed, the id is new, or it is not.
  unfoldable pub after_first_seen : Result Bool → Link S → Link S
  after_first_seen (err e) next ctx env w = next ctx env w
  after_first_seen (ok true) next ctx env w = next ctx env w
  after_first_seen (ok false) next ctx env w = done env w

  -- Deduper.Handle
  unfoldable pub deduper : DedupeStore S → Link S → Link S
  unfolding after_first_seen
  deduper store next ctx env w =
      let (seen, s) = store.first_seen env.cloud_event_id w.state in
      after_first_seen seen next ctx env (record w { state = s })

  -- Enricher.Handle
  unfoldable pub enricher : (String → String) → String → Link S → Link S
  unfolding enriched
  enricher escape dashboard_url next ctx env w = next ctx (enriched escape dashboard_url env) w
