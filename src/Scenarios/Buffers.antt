-- ===== src/Scenarios/Buffers.antt =====
-- The accumulator and the memory stores, run.
use tekton_events_relay.Prelude.{
  String, true, ◌&&◌, ◌||◌, none, some, List, [], ◌∷◌, Map, lookup, ◌≡◌, refl,
}
use tekton_events_relay.Errors.{plain}
use tekton_events_relay.Notifier.{ActionHandler}
use tekton_events_relay.Accumulator.{
  RunState, LruBuffer, add_with_group, is_group_complete, flush_group, ends_run,
}
use tekton_events_relay.Accumulator.Buffers.{lru_buffer}
use tekton_events_relay.Accumulator.Runs.{held}
use tekton_events_relay.Accumulator.Groups.{
  is_terminal, others_terminal, is_group_complete-add_with_group, run_has, any_run_has, found_runs,
  flush_group-known,
}
use tekton_events_relay.Accumulator.Handler.{Accumulated, AccumulatorConfig, handle}
use tekton_events_relay.Accumulator.Handler.Posts.{
  posted, updated, handle_ending, handle_ending_again,
}
use tekton_events_relay.Receiver.{request_context}
use tekton_events_relay.Scenarios.{task_event, run_event, map_cache}

abbrev buffer : LruBuffer (Map RunState)
buffer = record {
  cache =
      ("uid-1", record { uid = "uid-1"; tasks = ("lint-1", task_event) ∷ []; last_update = 3 })
      ∷ [];
  groups = ("g", ("uid-1", true) ∷ []) ∷ [];
}

-- A provider that counts what it posts, and always fails.
abbrev provider : ActionHandler (List String)
provider = record {
  name = "gh";
  provider = "github";
  action_type = "pr_comment";
  handle = λ ctx e s. (some (plain "502"), e.run_id ∷ s);
  close = λ s. (none, s);
}

abbrev config : AccumulatorConfig (LruBuffer (Map RunState)) (List String)
config = record {
  name = "accumulator";
  buffer = lru_buffer map_cache;
  provider = provider;
  template = none;
  duration_text = λ a b. "1s";
}

abbrev start : Accumulated (LruBuffer (Map RunState)) (List String)
start = record { buffer = buffer; state = [] }

is_group_complete-add_with_group_example :
    is_group_complete map_cache "g" (add_with_group map_cache 8 "g" "uid-2" task_event buffer) ≡ (
      (ends_run task_event || is_terminal "uid-2" (("uid-1", true) ∷ []))
      && others_terminal "uid-2" (("uid-1", true) ∷ []))
unfolding lookup
is_group_complete-add_with_group_example =
    is_group_complete-add_with_group map_cache 8 "g" "uid-2" task_event buffer

flush_group-known_example :
    let (merged, b') = flush_group map_cache "g" buffer in
    (run_has "lint-1" merged
      ≡ any_run_has "lint-1" (found_runs map_cache "g" (("uid-1", true) ∷ []) buffer.cache))
    × (lookup "g" b'.groups ≡ none)
unfolding lookup
flush_group-known_example =
    flush_group-known map_cache "g" (("uid-1", true) ∷ []) buffer "lint-1" refl

handle_ending_example :
    let (err, w') = handle config 8 request_context run_event start in
    ((err, w'.state)
      ≡ posted config request_context run_event
          (updated 8 run_event (held map_cache "uid-1" buffer))
          [])
    × (held map_cache "uid-1" w'.buffer ≡ none)
unfolding ends_run
handle_ending_example =
    handle_ending map_cache config 8 request_context run_event start refl refl refl

handle_ending_again_example :
    let w' = (handle config 8 request_context run_event start).1 in
    let (err, w'') = handle config 9 request_context run_event w' in
    (err ≡ none) × (w''.state ≡ w'.state)
unfolding ends_run
handle_ending_again_example =
    handle_ending_again map_cache config 8 9 request_context run_event start refl refl refl
