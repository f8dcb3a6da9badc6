-- ===== src/Store/Laws.antt =====
-- The laws of the memory backend of internal/store, and its fit to the interface of the deduper.
use tekton_events_relay.Prelude.{
  String, true, false, not, none, some, [], ◌≡◌, arith, ◌==◌, eq_refl, is_some, lookup, insert,
  lookup-insert, or_else, if◌then◌else◌, Option-cases, ap, ◌∙◌,
}
use tekton_events_relay.Domain.{Event}
use tekton_events_relay.Errors.{ok}
use tekton_events_relay.Store.{first_seen, memory_dedupe, buffer_add, buffer_flush, Tasks}
use tekton_events_relay.Store.Lru.{LruCache}
use tekton_events_relay.Receiver.Redelivery.{DedupeLaws}

module _ {C : Type 0} (lru : LruCache C (Unit {0})) where
  pub answers-first_seen :
      (id : String) (c : C) → (first_seen lru id c).0 ≡ ok (not (is_some (lru.peek id c)))
  unfolding first_seen
  answers-first_seen id c = ground (arith, lru.get-peek id c, Option-cases (lru.peek id c))

  pub records-first_seen :
      (id : String) (c : C) → is_some (lru.peek id (first_seen lru id c).1) ≡ true
  unfolding first_seen
  records-first_seen id c =
      ground
        (arith, lru.get-peek id c, lru.peek-get id id c, lru.peek-add_self id tt (lru.get id c).1)

  -- FirstSeen says that an id is new exactly when the cache does not hold it, never fails, and
  -- says of the same id right afterwards that it is not new.
  pub first_seen_once :
      (id : String) (c : C)
      → ((first_seen lru id c).0 ≡ ok (not (is_some (lru.peek id c))))
        × ((first_seen lru id (first_seen lru id c).1).0 ≡ ok false)
  first_seen_once id c = (
    answers-first_seen id c,
    answers-first_seen id (first_seen lru id c).1 ∙ ap (λ b. ok (not b)) (records-first_seen id c),
  )

  -- So the memory backend fills the interface of the deduper's laws.
  abbrev pub memory_dedupe_laws : DedupeLaws C (memory_dedupe lru)
  memory_dedupe_laws = record {
    seen = λ id c. is_some (lru.peek id c);
    answers = answers-first_seen;
    records = records-first_seen;
  }

module _ {C : Type 0} (lru : LruCache C Tasks) where
  pub peek-buffer_add :
      (uid task : String) (e : Event) (c : C)
      → lru.peek uid (buffer_add lru uid task e c)
        ≡ some (insert task e (or_else (lru.peek uid c) []))
  unfolding buffer_add
  peek-buffer_add uid task e c =
      lru.peek-add_self uid _ _ ∙ ap (λ t. some (insert task e (or_else t []))) (lru.get-peek uid c)

  pub tasks-buffer_flush : (uid : String) (c : C) → (buffer_flush lru uid c).0 ≡ lru.peek uid c
  unfolding buffer_flush
  tasks-buffer_flush uid c = lru.get-peek uid c

  pub peek-buffer_flush : (uid : String) (c : C) → lru.peek uid (buffer_flush lru uid c).1 ≡ none
  unfolding buffer_flush
  peek-buffer_flush uid c = ground (
    arith,
    lru.get-peek uid c,
    lru.peek-get uid uid c,
    lru.peek-remove uid uid (lru.get uid c).1,
    eq_refl uid,
  )

  -- Add and then Flush of a run in the memory store: the event under its task, and every other
  -- task as it was buffered; a second Flush finds nothing.
  pub buffer_flush-add :
      (uid task j : String) (e : Event) (c : C)
      → let (tasks, c') = buffer_flush lru uid (buffer_add lru uid task e c) in
        (is_some tasks ≡ true)
        × (lookup j (or_else tasks [])
            ≡ (if task == j then some e else lookup j (or_else (lru.peek uid c) [])))
        × ((buffer_flush lru uid c').0 ≡ none)
  buffer_flush-add uid task j e c =
      let c1 = buffer_add lru uid task e c in
      let held = tasks-buffer_flush uid c1 ∙ peek-buffer_add uid task e c in
      (
        ap is_some held,
        ap (λ t. lookup j (or_else t [])) held
            ∙ lookup-insert task j e (or_else (lru.peek uid c) []),
        tasks-buffer_flush uid (buffer_flush lru uid c1).1 ∙ peek-buffer_flush uid c1,
      )
