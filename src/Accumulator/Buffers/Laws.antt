-- ===== src/Accumulator/Buffers/Laws.antt =====
-- What a store that does not fail promises a StoreBuffer, and the memory store as such a store.
use tekton_events_relay.Prelude.{String, Option, none, some, ◌≡◌, ap, insert, or_else, []}
use tekton_events_relay.Domain.{Event}
use tekton_events_relay.Errors.{ok}
use tekton_events_relay.Store.{Tasks, buffer_add, buffer_flush}
use tekton_events_relay.Store.Lru.{LruCache}
use tekton_events_relay.Store.Laws.{peek-buffer_add, tasks-buffer_flush, peek-buffer_flush}
use tekton_events_relay.Accumulator.Buffers.{RunStore}

-- `peek` is what the store holds of a run.
pub record RunStoreLaws (Q : Type 0) (store : RunStore Q) : Type 0 where
  pub peek : String → Q → Option Tasks
  pub peek-add :
      (uid task : String) (e : Event) (q : Q)
      → peek uid ((store.add uid task e q).1) ≡ some (insert task e (or_else (peek uid q) []))
  pub flush-peek : (uid : String) (q : Q) → (store.flush uid q).0 ≡ ok (peek uid q)
  pub peek-flush : (uid : String) (q : Q) → peek uid ((store.flush uid q).1) ≡ none

module _ {C : Type 0} (lru : LruCache C Tasks) where
  -- The memory store of internal/store/memory.go never fails.
  abbrev pub memory_runs : RunStore C
  memory_runs = record {
    add = λ uid task e c. (none, buffer_add lru uid task e c);
    flush = λ uid c. let (tasks, c') = buffer_flush lru uid c in (ok tasks, c');
  }

  pub flush-memory_runs : (uid : String) (c : C) → (memory_runs.flush uid c).0 ≡ ok (lru.peek uid c)
  flush-memory_runs uid c = ap ok (tasks-buffer_flush lru uid c)

  abbrev pub memory_runs_laws : RunStoreLaws C memory_runs
  memory_runs_laws = record {
    peek = lru.peek;
    peek-add = peek-buffer_add lru;
    flush-peek = flush-memory_runs;
    peek-flush = peek-buffer_flush lru;
  }
