-- ===== src/Store.antt =====
-- internal/store: the memory backend (memory.go) of the dedupe store and of the run buffer.
pub mod Lru
pub mod Laws
use tekton_events_relay.Prelude.{
  String, Bool, true, false, Option, none, some, List, [], Map, insert, or_else, is_some,
  if◌then◌else◌,
}
use tekton_events_relay.Domain.{Event}
use tekton_events_relay.Errors.{Result, ok}
use tekton_events_relay.Pipeline.Links.{DedupeStore}
use Lru.{LruCache}

-- memoryDedupe.FirstSeen
unfoldable pub first_seen : {C : Type 0} → LruCache C (Unit {0}) → String → C → Result Bool × C
first_seen lru id c =
    let (found, c') = lru.get id c in
    if is_some found then (ok false, c') else (ok true, lru.add id tt c')

-- memoryDedupe as the store of the chain's deduper.
abbrev pub memory_dedupe : {C : Type 0} → LruCache C (Unit {0}) → DedupeStore C
memory_dedupe lru = record { first_seen = first_seen lru }

-- The events of one run, by task.
abbrev pub Tasks : Type 0
Tasks = Map Event

-- memoryRunBuffer.Add; events are copied, so no two calls share one.
unfoldable pub buffer_add : {C : Type 0} → LruCache C Tasks → String → String → Event → C → C
buffer_add lru uid task e c =
    let (tasks, c') = lru.get uid c in lru.add uid (insert task e (or_else tasks [])) c'

-- memoryRunBuffer.Flush
unfoldable pub buffer_flush : {C : Type 0} → LruCache C Tasks → String → C → Option Tasks × C
buffer_flush lru uid c =
    let (tasks, c') = lru.get uid c in (tasks, if is_some tasks then lru.remove uid c' else c')
