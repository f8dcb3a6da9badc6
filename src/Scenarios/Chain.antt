-- ===== src/Scenarios/Chain.antt =====
-- The chain, its dispatcher and the answers of the relay, run.
use mathlib.Core.Bool.{false≢true}
use mathlib.Core.List.{Perm}
use tekton_events_relay.Prelude.{
  ℕ, insert, String, not, ◌∙◌, ◌≢◌, sym, inr, eq_iff, ◌==◌, lookup, true, false, ◌||◌, none, some,
  List, [], ◌∷◌, ◌≡◌, refl, is_some, any, inl,
}
use tekton_events_relay.Domain.{Envelope}
use tekton_events_relay.Errors.{is_retryable, join_all, is_retryable?}
use tekton_events_relay.Notifier.{ActionHandler, all_handlers}
use tekton_events_relay.Pipeline.{end_of_chain}
use tekton_events_relay.Pipeline.Links.{invalid, passes_filter, enricher, resource_allowed}
use tekton_events_relay.Pipeline.Links.Namespaces.{
  match_namespace, match_namespace-last, namespace_allowed,
}
use tekton_events_relay.Pipeline.Dispatcher.{
  Dispatcher, matched, handler_context, dispatch, run_turns, is_matched,
}
use tekton_events_relay.Pipeline.Dispatcher.Runs.{all_run, calls, dispatch-calls_each_once}
use tekton_events_relay.Pipeline.Dispatcher.Verdict.{
  dispatch_fails_iff, dispatch_retryable_iff, returned, turns_of, returned_by_fallbacks, stopped_by,
}
use tekton_events_relay.Pipeline.Chain.{Setup, after_deduper, relay_chain}
use tekton_events_relay.Pipeline.Chain.Laws.{asked}
use tekton_events_relay.Receiver.{
  decode_event, receive, request_context, status_ok, status_unavailable, Relay,
}
use tekton_events_relay.Pipeline.Chain.Switches.{task_runs}
use tekton_events_relay.Pipeline.Chain.Reasons.{Admitted}
use tekton_events_relay.Pipeline.Chain.Admission.{
  refused_touches_nothing, admitted_is_notified, linked, is_incomplete,
}
use tekton_events_relay.Receiver.Redelivery.{StoreKept, redelivery_ignored, retry_swallowed}
use tekton_events_relay.Dlq.{DeadEvent}
use tekton_events_relay.Scenarios.{
  Site, setup, store_laws, memory_queue, decoders, raw, envelope, relay, fresh, github, gitlab,
  failing, dispatcher, in_order,
}

abbrev one_failing : Setup Site
one_failing = setup (failing ∷ [])

abbrev two : List (ActionHandler Site)
two = github ∷ gitlab ∷ []

decoded : decode_event decoders raw ≡ some envelope
unfolding decode_event
decoded = refl

valid : invalid envelope ≡ none
unfolding invalid
valid = refl

passing : passes_filter one_failing.path_match one_failing.filter envelope ≡ true
unfolding passes_filter resource_allowed namespace_allowed
passing = refl

new : store_laws.seen "e1" fresh.state ≡ false
unfolding lookup store_laws
new = refl

kept : StoreKept one_failing store_laws envelope
unfolding after_deduper enricher dispatch dispatcher all_handlers run_turns in_order is_matched
    lookup join_all store_laws
kept = record { kept = λ w h. h }

fails : is_retryable? (relay_chain one_failing request_context envelope fresh).err ≡ true
unfolding relay_chain resource_allowed namespace_allowed lookup dispatch all_handlers dispatcher
    join_all run_turns in_order is_matched is_retryable
fails = refl

abbrev first_time : ℕ × Relay Site (List DeadEvent)
first_time = receive decoders (relay_chain one_failing) (some memory_queue) 8 (some raw) relay

abbrev second_time : ℕ × Relay Site (List DeadEvent)
second_time =
    receive decoders (relay_chain one_failing) (some memory_queue) 9 (some raw) first_time.1

redelivery_ignored_example : second_time ≡ (
  status_ok,
  record first_time.1 { world = asked one_failing request_context envelope first_time.1.world },
)
redelivery_ignored_example =
    redelivery_ignored one_failing store_laws (some memory_queue) decoders 8 9 raw envelope relay
      kept decoded valid passing new

retry_swallowed_example :
    (first_time.0 ≡ status_unavailable)
    × (first_time.1.dead ≡ relay.dead)
    × (second_time ≡ (
      status_ok,
      record first_time.1 { world = asked one_failing request_context envelope first_time.1.world },
    ))
retry_swallowed_example =
    retry_swallowed one_failing store_laws (some memory_queue) decoders 8 9 raw envelope relay kept
      decoded valid passing new fails

dispatch-calls_each_once_example :
    (hs : List (ActionHandler Site)) × Perm hs (matched (dispatcher two) envelope.report)
    × ((dispatch in_order (dispatcher two) end_of_chain request_context envelope fresh).world.state
        ≡ calls
            (handler_context (dispatcher two) request_context envelope)
            envelope.report
            hs
            fresh.state)
unfolding dispatcher in_order all_handlers is_matched lookup
dispatch-calls_each_once_example =
    dispatch-calls_each_once in_order (dispatcher two) request_context envelope fresh refl refl

abbrev three : Dispatcher Site
three = dispatcher (failing ∷ two)

dispatch_fails_iff_example :
    is_some (dispatch in_order three end_of_chain request_context envelope fresh).err ≡ (
      any is_some (returned in_order three request_context envelope fresh)
      || not (all_run (turns_of in_order three request_context envelope fresh)))
unfolding dispatcher all_handlers
dispatch_fails_iff_example = dispatch_fails_iff in_order three request_context envelope fresh refl

dispatch_retryable_iff_example :
    is_retryable? (dispatch in_order three end_of_chain request_context envelope fresh).err ≡ (
      any is_retryable? (returned in_order three request_context envelope fresh)
      || (any is_retryable? (returned_by_fallbacks in_order three request_context envelope fresh)
          || is_retryable? (stopped_by (turns_of in_order three request_context envelope fresh))))
unfolding dispatcher all_handlers
dispatch_retryable_iff_example =
    dispatch_retryable_iff in_order three request_context envelope fresh refl

-- Texts that differ.
differs : (a b : String) → (a == b) ≡ false → a ≢ b
differs a b h same = absurd (false≢true (sym h ∙ (eq_iff a b).1 same))

abbrev unnamed : Envelope
unnamed = record envelope { cloud_event_id = "" }

refused_touches_nothing_example :
    let o = relay_chain one_failing request_context unnamed fresh in
    (o.world ≡ fresh) × (o.env ≡ unnamed) × (is_some o.err ≡ is_incomplete one_failing unnamed)
refused_touches_nothing_example =
    refused_touches_nothing one_failing unnamed request_context fresh (λ a. a.has_id refl)

admitted : Admitted (setup two) envelope
unfolding match_namespace
admitted = record {
  has_id = differs "e1" "" refl;
  has_provider = inr (differs "github" "" refl);
  has_name = differs "build-1" "" refl;
  known_type = inl refl;
  switched_on = task_runs refl;
  not_denied = refl;
  in_allowed = inl refl;
}

admitted_is_notified_example :
    (hs : List (ActionHandler Site)) × Perm hs
      (matched (dispatcher two) (linked (setup two) envelope))
    × ((relay_chain (setup two) request_context envelope fresh).world.state
        ≡ calls
            (handler_context (dispatcher two) request_context envelope)
            (linked (setup two) envelope)
            hs
            (("e1", tt) ∷ [], []))
unfolding dispatcher in_order all_handlers is_matched lookup match_namespace insert
admitted_is_notified_example =
    admitted_is_notified (setup two) envelope request_context fresh admitted refl refl refl

match_namespace-last_example :
    match_namespace (λ p ns. some (p == ns)) "ci" ("ci" ∷ "!ci" ∷ "other" ∷ []) ≡ false
match_namespace-last_example =
    match_namespace-last (λ p ns. some (p == ns)) "ci" ("ci" ∷ []) "!ci" ("other" ∷ []) refl refl
