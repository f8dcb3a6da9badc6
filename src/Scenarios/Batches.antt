-- ===== src/Scenarios/Batches.antt =====
-- The batching of events and the store-backed buffer, run.
use tekton_events_relay.Prelude.{
  ℕ, any, ◌==◌, String, true, Option, none, some, List, [], ◌∷◌, Map, pos, ◌≡◌, refl, arith,
}
use tekton_events_relay.Domain.{Event, Envelope}
use tekton_events_relay.Errors.{Err, plain}
use tekton_events_relay.Notifier.Batch.{
  BatchConfig, BufferedEvent, Batcher, new_batcher, new_handler, handle_enter, close_enter,
}
use tekton_events_relay.Notifier.Batch.Steps.{
  World, start, Step, enters, sends, receives, closes, Reach, here, next, receive, send,
  set_handler, flush_buffer,
}
use tekton_events_relay.Notifier.Batch.Order.{flat, IsConserved, batches_keep_order}
use tekton_events_relay.Notifier.Batch.Sizes.{IsBounded, batches_keep_bounds}
use tekton_events_relay.Notifier.Batch.Closing.{HasReturned, close_drains}
use tekton_events_relay.Notifier.Batch.Failures.{QueueLaws, Failing}
use tekton_events_relay.Store.{Tasks}
use tekton_events_relay.Accumulator.{RunState, LruBuffer}
use tekton_events_relay.Accumulator.Buffers.{lru_buffer, store_buffer}
use tekton_events_relay.Accumulator.Buffers.Laws.{memory_runs, memory_runs_laws}
use tekton_events_relay.Accumulator.Handler.{Accumulated}
use tekton_events_relay.Accumulator.Handler.Equivalence.{
  Shared, with_buffer, handle_all, store_buffer_equivalent,
}
use tekton_events_relay.Receiver.{request_context}
use tekton_events_relay.Scenarios.{task_event, run_event, map_cache, failing, Site}

-- A provider that takes a batch, and one that always fails and whose queue keeps the ids.
abbrev two : BatchConfig
two = record { enabled = true; max_size = pos 2; flush_interval = pos 0 }

abbrev keep : Envelope → Err → List String → Option Err × List String
keep env cause s = (none, env.cloud_event_id ∷ s)

abbrev batcher : Batcher (List String)
batcher = new_batcher (λ es s. (some (plain "502"), "flush" ∷ s)) "slack" two (some keep)

abbrev buffered : BufferedEvent
buffered = record { cloud_event_id = "e1"; event = task_event }

abbrev entered : World (List String)
entered = set_handler (record new_handler { passed = buffered ∷ [] }) (start [])

abbrev sent : World (List String)
sent = send buffered [] entered

abbrev received : World (List String)
received = receive batcher buffered [] sent

enter : Step batcher (start []) entered
unfolding start set_handler handle_enter
enter = enters buffered

steps_to_sent : Reach batcher (start []) sent
unfolding start set_handler
steps_to_sent = next (next here enter) (sends [] [] buffered refl refl (ground arith))

steps_to_received : Reach batcher (start []) received
unfolding start set_handler send
steps_to_received = next steps_to_sent (receives buffered [] refl refl)

batches_keep_order_example : IsConserved received
batches_keep_order_example = batches_keep_order batcher [] received steps_to_received

batches_keep_bounds_example : IsBounded batcher received
batches_keep_bounds_example = batches_keep_bounds batcher [] received steps_to_received

abbrev closed : World (List String)
closed = set_handler (record (received.handler) { closed = true; closing = true }) received

steps_to_closed : Reach batcher (start []) closed
unfolding close_enter receive new_batcher send set_handler
steps_to_closed = next steps_to_received closes

close_drains_example :
    (v : World (List String)) × Reach batcher closed v
    × HasReturned v
    × (v.accepted ≡ closed.accepted)
    × (flat v.handed ≡ closed.accepted)
unfolding set_handler
close_drains_example = close_drains batcher [] closed steps_to_closed refl

-- A provider that fails without a trace, and what its queue holds.
abbrev refusing : Batcher (List String)
refusing = new_batcher (λ es s. (some (plain "502"), s)) "slack" two (some keep)

abbrev queued : QueueLaws (List String) keep
queued = record { has = λ id s. any (λ k. k == id) s; stored = λ id env cause s. refl }

abbrev refuses : Failing (refusing.flush) queued.has
unfolding new_batcher
refuses = record { fails = λ es s. refl; leaves = λ id es s. refl }

abbrev flushed : World (List String)
flushed = flush_buffer refusing (receive refusing buffered [] sent)

abbrev shared : Shared Site
shared = record {
  name = "accumulator";
  provider = failing;
  template = none;
  duration_text = λ a b. "1s";
}

abbrev run : List (ℕ × Event)
run = (1, task_event) ∷ (2, run_event) ∷ []

abbrev in_memory : Accumulated (LruBuffer (Map RunState)) Site
in_memory = record { buffer = record { cache = []; groups = [] }; state = ([], []) }

abbrev in_store : Accumulated (Map Tasks) Site
in_store = record { buffer = []; state = ([], []) }

store_buffer_equivalent_example :
    handle_all (with_buffer shared (lru_buffer map_cache)) request_context run in_memory
    ≡ handle_all
        (with_buffer shared (store_buffer (memory_runs map_cache)))
        request_context
        run
        in_store
unfolding map_cache
store_buffer_equivalent_example =
    store_buffer_equivalent map_cache (memory_runs map_cache) (memory_runs_laws map_cache) shared
      "uid-1" request_context run in_memory in_store ((refl, refl), ((refl, refl), tt)) refl refl
