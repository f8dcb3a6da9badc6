-- ===== src/Pipeline/Chain/Admission.antt =====
-- Which events get through the chain to the handlers, and as what, in terms of the event and of the
-- configuration alone.
use mathlib.Core.List.{Perm}
use tekton_events_relay.Prelude.{
  Bool, true, false, not, ◌&&◌, ◌||◌, none, some, List, ◌≡◌, ◌⊎◌, inl, inr, refl, ◌∙◌, arith,
  is_some, eq_iff, ◌==◌, ◌<>◌, if◌then◌else◌, Bool-cases,
}
use tekton_events_relay.Domain.{Event, Envelope, Resource}
use tekton_events_relay.Errors.{ok}
use tekton_events_relay.Notifier.{Context, ActionHandler}
use tekton_events_relay.Pipeline.{World, build}
use tekton_events_relay.Pipeline.Links.{
  invalid, passes_filter, enriched, dashboard_link, dashboard_kind, enricher,
}
use tekton_events_relay.Pipeline.Links.Namespaces.{match_namespace-not_empty, namespace_allowed}
use tekton_events_relay.Pipeline.Dispatcher.{matched, handler_context}
use tekton_events_relay.Pipeline.Dispatcher.Runs.{calls, all_run, dispatch-calls_each_once}
use tekton_events_relay.Pipeline.Chain.{Setup, after_deduper, relay_chain}
use tekton_events_relay.Pipeline.Chain.Switches.{resource_allowed-Switched}
use tekton_events_relay.Pipeline.Chain.Reasons.{
  Refused, no_id, no_provider, no_name, unknown_type, switched_off, denied, not_allowed, Admitted,
  admitted_or_refused,
}
use tekton_events_relay.Pipeline.Chain.Laws.{asked, relay_chain_rejects, relay_chain_dedupes}

abbrev pub is_run : Resource → Bool
is_run r = r == "taskrun" || (r == "pipelinerun" || r == "customrun")

dashboard_kind-plural :
    (r : Resource) → dashboard_kind r ≡ (if is_run r then some (r <> "s") else none)
unfolding dashboard_kind
dashboard_kind-plural r = elim (Bool-cases (r == "taskrun")) [
  | inl t ↦ rw ((eq_iff r "taskrun").0 t) refl
  | inr not_t ↦ elim (Bool-cases (r == "pipelinerun")) [
    | inl p ↦ rw ((eq_iff r "pipelinerun").0 p) refl
    | inr not_p ↦ elim (Bool-cases (r == "customrun")) [
      | inl c ↦ rw ((eq_iff r "customrun").0 c) refl
      | inr not_c ↦ rw (not_t, not_p, not_c) refl
    ]
  ]
]

module _ {S : Type 0} (c : Setup S) (env : Envelope) where
  -- A required text of the event is missing.
  abbrev pub is_incomplete : Bool
  is_incomplete =
      env.cloud_event_id == ""
      || ((not (env.report.resource == "eventlistener") && env.report.provider == "")
          || env.report.run_name == "")

  invalid-incomplete : is_some (invalid env) ≡ is_incomplete
  unfolding invalid
  invalid-incomplete = ground arith

  stopped :
      Refused c env
      → (is_some (invalid env) ≡ true) ⊎ (passes_filter c.path_match c.filter env ≡ false)
  unfolding passes_filter namespace_allowed
  stopped (no_id h) = inl (invalid-incomplete ∙ ground (arith, eq_iff env.cloud_event_id ""))
  stopped (no_provider r p) = inl (
      invalid-incomplete
      ∙ ground (arith, eq_iff env.report.resource "eventlistener", eq_iff env.report.provider ""))
  stopped (no_name h) = inl (invalid-incomplete ∙ ground (arith, eq_iff env.report.run_name ""))
  stopped (unknown_type i t) = inr (ground arith)
  stopped (switched_off s) =
      inr (ground (arith, resource_allowed-Switched c.filter false env.report.resource s))
  stopped (denied h) = inr (
      ground (
        arith,
        match_namespace-not_empty c.path_match env.report.namespace c.filter.deny_namespaces h,
      ))
  stopped (not_allowed e m) = inr (ground arith)

  admitted-passes : Admitted c env → passes_filter c.path_match c.filter env ≡ true
  unfolding passes_filter namespace_allowed
  admitted-passes a = ground (
    arith,
    resource_allowed-Switched c.filter true env.report.resource a.switched_on,
    a.known_type,
    a.not_denied,
    a.in_allowed,
  )

  admitted-valid : Admitted c env → invalid env ≡ none
  unfolding invalid
  admitted-valid a = ground (
    arith,
    a.has_id,
    a.has_provider,
    a.has_name,
    eq_iff env.cloud_event_id "",
    eq_iff env.report.resource "eventlistener",
    eq_iff env.report.provider "",
    eq_iff env.report.run_name "",
  )

  -- The event with the address of its run in the dashboard, where it has none of its own.
  abbrev pub linked : Event
  linked =
      if not (c.dashboard_url == "") && (env.report.target_url == "" && is_run env.report.resource)
      then (record env.report {
        target_url =
            c.dashboard_url
            <> "/#/namespaces/"
            <> c.path_escape env.report.namespace
            <> "/"
            <> (env.report.resource <> "s")
            <> "/"
            <> c.path_escape env.report.run_name;
      })
      else env.report

  enriched-linked : enriched c.path_escape c.dashboard_url env ≡ record env { report = linked }
  unfolding enriched dashboard_link
  enriched-linked =
      ground (arith, dashboard_kind-plural env.report.resource, eq_iff env.report.target_url "")

  module _ (ctx : Context) (w : World S) where
    -- Any event that is not admitted: one that lacks its id, its provider or its name, is of an
    -- unknown type that is ignored or of a resource that is switched off, or whose namespace is
    -- denied or not allowed. The chain records nothing, calls no handler and leaves the event as
    -- it was, and it ends in an error exactly when one of those texts is missing.
    pub refused_touches_nothing :
        ¬ (Admitted c env)
        → let o = relay_chain c ctx env w in
          (o.world ≡ w) × (o.env ≡ env) × (is_some o.err ≡ is_incomplete)
    refused_touches_nothing not_admitted = elim (admitted_or_refused c env) [
      | inl a ↦ absurd (not_admitted a)
      | inr r ↦
          let same = relay_chain_rejects c ctx env w (stopped r) in
          rw same (refl, refl, invalid-incomplete)
    ]

    -- An admitted event, one that has its id, its provider (if it is not of an event listener) and
    -- its name, whose type is not an ignored unknown one, whose resource is switched on, whose
    -- namespace is not denied and is allowed where there is a list of allowed ones, and whose id
    -- is new to the store: every matched handler is called exactly once, in some order, with the
    -- event that has the address of its run in the dashboard if there is a dashboard, it is of a
    -- run and it had no address of its own. Conditions: there are no fallbacks, and the context
    -- stays alive.
    pub admitted_is_notified :
        Admitted c env
        → (c.store.first_seen env.cloud_event_id w.state).0 ≡ ok true
        → c.dispatcher.fallbacks ≡ none
        → all_run (c.scheduler.turns (matched c.dispatcher linked)) ≡ true
        → (hs : List (ActionHandler S)) × Perm hs (matched c.dispatcher linked)
          × ((relay_chain c ctx env w).world.state
              ≡ calls
                  (handler_context c.dispatcher ctx env)
                  linked
                  hs
                  (c.store.first_seen env.cloud_event_id w.state).1)
    unfolding after_deduper enricher build
    admitted_is_notified a new no_fallbacks alive =
        let env' : Envelope = record env { report = linked } in
        let through : relay_chain c ctx env w ≡ after_deduper c ctx env (asked c ctx env w) =
          relay_chain_dedupes c ctx env w (admitted-valid a) (admitted-passes a) ∙ rw new refl in
        let (hs, p, same) =
          dispatch-calls_each_once c.scheduler c.dispatcher ctx env' (asked c ctx env w)
            no_fallbacks alive in
        (hs, p, rw (through, enriched-linked) same)
