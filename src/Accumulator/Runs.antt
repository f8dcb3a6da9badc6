-- ===== src/Accumulator/Runs.antt =====
-- Single runs: what Flush returns after Add.
use tekton_events_relay.Prelude.{
  String, Option, none, some, ◌≡◌, arith, ◌==◌, eq_refl, eq_iff, lookup, lookup-insert, or_else,
  if◌then◌else◌, ap, ◌∙◌,
}
use tekton_events_relay.Domain.{Time, Event, resource_task_run}
use tekton_events_relay.Store.Lru.{LruCache}
use tekton_events_relay.Accumulator.{RunState, LruBuffer, new_run, touch, add, flush}

module _ {C : Type 0} (lru : LruCache C RunState) where
  -- What a buffer holds of a run.
  abbrev pub held : String → LruBuffer C → Option RunState
  held uid b = lru.peek uid b.cache

  pub held-add :
      (now : Time) (uid : String) (e : Event) (b : LruBuffer C)
      → held uid (add lru now uid e b) ≡ some (touch now e (or_else (held uid b) (new_run uid)))
  unfolding add
  held-add now uid e b =
      lru.peek-add_self uid _ _
      ∙ ap (λ s. some (touch now e (or_else s (new_run uid)))) (lru.get-peek uid b.cache)

  pub flush-held : (uid : String) (b : LruBuffer C) → (flush lru uid b).0 ≡ held uid b
  unfolding flush
  flush-held uid b = lru.get-peek uid b.cache

  pub held-flush : (uid : String) (b : LruBuffer C) → held uid (flush lru uid b).1 ≡ none
  unfolding flush
  held-flush uid b = ground (
    arith,
    lru.get-peek uid b.cache,
    lru.peek-get uid uid b.cache,
    lru.peek-remove uid uid (lru.get uid b.cache).1,
    eq_refl uid,
  )

  lookup-touch :
      (now : Time) (e : Event) (s : RunState) (j : String)
      → e.resource ≡ resource_task_run
      → lookup j (touch now e s).tasks ≡ (if e.run_name == j then some e else lookup j s.tasks)
  unfolding touch
  lookup-touch now e s j task =
      ground (arith, lookup-insert e.run_name j e s.tasks, eq_iff e.resource resource_task_run)

  -- Flush after Add of a task's event returns the run with that event under its run name, every
  -- other task as it was buffered, and the time of the Add; and the run is then gone.
  pub flush-add :
      (now : Time) (uid j : String) (e : Event) (b : LruBuffer C)
      → e.resource ≡ resource_task_run
      → let (found, b') = flush lru uid (add lru now uid e b) in
        let old = or_else (held uid b) (new_run uid) in
        (found ≡ some (touch now e old))
        × (lookup j (touch now e old).tasks
            ≡ (if e.run_name == j then some e else lookup j old.tasks))
        × ((flush lru uid b').0 ≡ none)
  flush-add now uid j e b task =
      let b1 = add lru now uid e b in
      (
        flush-held uid b1 ∙ held-add now uid e b,
        lookup-touch now e (or_else (held uid b) (new_run uid)) j task,
        flush-held uid (flush lru uid b1).1 ∙ held-flush uid b1,
      )
