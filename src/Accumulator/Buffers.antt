-- ===== src/Accumulator/Buffers.antt =====
-- The Buffer interface of internal/accumulator, and its two implementations: LRUBuffer (buffer.go),
-- and StoreBuffer (storebuffer.go) over the run buffer of a store.
pub mod Laws
use tekton_events_relay.Prelude.{
  String, Bool, true, false, Option, none, some, ◌==◌, if◌then◌else◌, Map,
}
use tekton_events_relay.Domain.{Time, Event, resource_task_run}
use tekton_events_relay.Errors.{Err, Result, ok, err}
use tekton_events_relay.Store.Lru.{LruCache}
use tekton_events_relay.Store.{Tasks}
use tekton_events_relay.Accumulator.{
  RunState, LruBuffer, add, flush, add_with_group, is_group_complete, flush_group,
}

-- The operations that the handler calls, at a time.
pub record Buffer (B : Type 0) : Type 0 where
  pub add : Time → String → Event → B → B
  pub flush : Time → String → B → Option RunState × B
  pub add_with_group : Time → String → String → Event → B → B
  pub is_group_complete : String → B → Bool
  pub flush_group : String → B → Option RunState × B

abbrev pub lru_buffer : {C : Type 0} → LruCache C RunState → Buffer (LruBuffer C)
lru_buffer lru = record {
  add = add lru;
  flush = λ now. flush lru;
  add_with_group = add_with_group lru;
  is_group_complete = is_group_complete lru;
  flush_group = flush_group lru;
}

-- store.RunBuffer: `Q` is the backend. Flush answers the tasks, none where it has none, or fails.
pub record RunStore (Q : Type 0) : Type 0 where
  pub add : String → String → Event → Q → Option Err × Q
  pub flush : String → Q → Result (Option Tasks) × Q

module _ {Q : Type 0} (store : RunStore Q) where
  -- StoreBuffer.Add: an error is logged, and the event is dropped.
  unfoldable pub store_add : String → Event → Q → Q
  store_add uid e q =
      if e.resource == resource_task_run then (store.add uid e.run_name e q).1 else q

  abbrev pub flushed : Time → String → Result (Option Tasks) → Option RunState
  flushed now uid (err e) = none
  flushed now uid (ok none) = none
  flushed now uid (ok (some tasks)) = some (record { uid = uid; tasks = tasks; last_update = now })

  -- StoreBuffer.Flush
  unfoldable pub store_flush : Time → String → Q → Option RunState × Q
  store_flush now uid q = let (found, q') = store.flush uid q in (flushed now uid found, q')

  -- StoreBuffer.AddWithGroup, IsGroupComplete and FlushGroup do nothing.
  abbrev pub store_buffer : Buffer Q
  store_buffer = record {
    add = λ now. store_add;
    flush = store_flush;
    add_with_group = λ now group_id uid e q. q;
    is_group_complete = λ group_id q. false;
    flush_group = λ group_id q. (none, q);
  }
