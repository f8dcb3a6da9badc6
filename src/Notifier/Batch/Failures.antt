-- ===== src/Notifier/Batch/Failures.antt =====
-- internal/notifier/batch/batch.go: what the dead letter queue holds where the provider fails.
use tekton_events_relay.Prelude.{
  String, Bool, true, false, ◌||◌, Option, none, some, List, [], ◌∷◌, any, is_some, ◌==◌, ◌≡◌, refl,
}
use tekton_events_relay.Domain.{Event, Envelope}
use tekton_events_relay.Errors.{Err}
use tekton_events_relay.Notifier.Batch.{BufferedEvent, Batcher, final_result}
use tekton_events_relay.Notifier.Batch.Steps.{Origin, by_loop, by_close}

-- A queue that keeps what it is given, seen by id.
pub record QueueLaws (S : Type 0) (enqueue : Envelope → Err → S → Option Err × S) : Type 0 where
  pub has : String → S → Bool
  pub stored :
      (id : String) (env : Envelope) (cause : Err) (s : S)
      → has id ((enqueue env cause s).1) ≡ (env.cloud_event_id == id || has id s)

-- A provider that always fails, and leaves the queue alone.
pub record Failing {S : Type 0} (flush : List Event → S → Option Err × S) (has : String → S → Bool)
    : Type 0 where
  pub fails : (es : List Event) (s : S) → is_some ((flush es s).0) ≡ true
  pub leaves : (id : String) (es : List Event) (s : S) → has id ((flush es s).1) ≡ has id s

-- An event of a batch has this id.
abbrev pub has_event : String → List BufferedEvent → Bool
has_event id batch = any (λ be. be.cloud_event_id == id) batch

-- A batch that the loop handed to the provider has an event of this id.
abbrev pub in_loop : String → List (Origin × List BufferedEvent) → Bool
in_loop id [] = false
in_loop id ((by_loop, batch) ∷ rest) = has_event id batch || in_loop id rest
in_loop id ((by_close, batch) ∷ rest) = in_loop id rest

module _ {S : Type 0} (b : Batcher S) (enqueue : Envelope → Err → S → Option Err × S)
    (laws : QueueLaws S enqueue) (failing : Failing b.flush laws.has) (queue : b.dlq ≡ some enqueue)
    (id : String) where
  error-final_result : (o : Option Err × S) → is_some ((final_result b.name o).0) ≡ is_some (o.0)
  error-final_result (none, s) = refl
  error-final_result (some e, s) = refl
