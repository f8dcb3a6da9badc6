-- ===== src/Scenarios/Wrapped.antt =====
-- The wrappers of handlers, the waits of retries and the limits of fields, run.
use tekton_events_relay.Prelude.{ℕ, true, false, none, some, lookup, ◌≡◌, refl, arith, atoi}
use tekton_events_relay.Notifier.{Context}
use tekton_events_relay.Notifier.Wrappers.{composite_key, dedupe_handler}
use tekton_events_relay.Notifier.Wrappers.Laws.{dedupe_handler_once}
use tekton_events_relay.Retry.{Response, backoff, is_negative}
use tekton_events_relay.Retry.Waits.{AsksFor, backoff_overflows}
use tekton_events_relay.Scenarios.{store, store_laws, failing, task_event, fresh}

abbrev in_event : Context
in_event = record { cloud_event_id = some "e1"; timeout = none }

unseen : store_laws.seen (composite_key "gh2" "e1") fresh.state ≡ false
unfolding lookup store_laws
unseen = refl

dedupe_handler_once_example :
    let guarded = dedupe_handler (some store.first_seen) failing in
    let (first, s') = guarded.handle in_event task_event fresh.state in
    ((first, s')
      ≡ failing.handle in_event task_event
          (store.first_seen (composite_key "gh2" "e1") fresh.state).1)
    × (guarded.handle in_event task_event s'
        ≡ (none, (store.first_seen (composite_key "gh2" "e1") s').1))
unfolding store_laws
dedupe_handler_once_example =
    dedupe_handler_once store store_laws failing in_event "e1" task_event task_event fresh.state
      refl refl unseen (λ t h. h)

abbrev no_jitter : ℕ → ℕ
no_jitter n = 0

abbrev wait_long : Response
wait_long = record { status_code = 503; retry_after = "10000000000" }

asks_long : AsksFor 10000000000 wait_long
unfolding atoi
asks_long = record { told = refl; present = refl; read = refl }

backoff_overflows_example :
    is_negative (backoff (λ s. none) no_jitter 250000000 30000000000 0 (some wait_long)) ≡ true
backoff_overflows_example =
    backoff_overflows (λ s. none) no_jitter 250000000 30000000000 0 10000000000 wait_long asks_long
      (omega arith) (omega arith) (omega arith)
