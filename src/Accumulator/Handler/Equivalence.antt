-- ===== src/Accumulator/Handler/Equivalence.antt =====
-- The accumulator's handler over StoreBuffer against the same handler over LRUBuffer.
use tekton_events_relay.Prelude.{
  String, true, false, Option, none, some, List, [], ◌∷◌, All, ◌≡◌, ◌≢◌, refl, sym, ◌∙◌, ap, arith,
  ◌==◌, eq_iff, or_else, is_empty, insert, if◌then◌else◌, Bool-cases, inl, inr,
}
use tekton_events_relay.Domain.{Time, Event, resource_task_run}
use tekton_events_relay.Errors.{Err, ok}
use tekton_events_relay.Notifier.{Context, ActionHandler}
use tekton_events_relay.Store.{Tasks}
use tekton_events_relay.Store.Lru.{LruCache}
use tekton_events_relay.Accumulator.{RunState, LruBuffer, new_run, touch, add, flush, ends_run}
use tekton_events_relay.Accumulator.Buffers.{
  Buffer, RunStore, lru_buffer, store_buffer, store_add, store_flush, flushed,
}
use tekton_events_relay.Accumulator.Buffers.Laws.{RunStoreLaws}
use tekton_events_relay.Accumulator.Runs.{held, held-add, flush-held, held-flush}
use tekton_events_relay.Accumulator.Markdown.{SummaryData, summary_of, generate_markdown}
use tekton_events_relay.Accumulator.Handler.{
  Accumulated, AccumulatorConfig, handle, handle_single, handle_grouped, flush_and_post,
  aggregate_event, post, render, is_buffered,
}

-- The handler's configuration but for the buffer.
pub record Shared (S : Type 0) : Type 0 where
  pub name : String
  pub provider : ActionHandler S
  pub template : Option (SummaryData → Option String)
  pub duration_text : Time → Time → String

abbrev pub with_buffer : {B S : Type 0} → Shared S → Buffer B → AccumulatorConfig B S
with_buffer sh b = record {
  name = sh.name;
  buffer = b;
  provider = sh.provider;
  template = sh.template;
  duration_text = sh.duration_text;
}

-- The events of one run, each at its time, and what each call returned.
unfoldable pub handle_all :
    {B S : Type 0}
    → AccumulatorConfig B S
    → Context
    → List (Time × Event)
    → Accumulated B S
    → List (Option Err) × S
handle_all a ctx [] w = ([], w.state)
handle_all a ctx ((now, e) ∷ rest) w =
    let (err, w') = handle a now ctx e w in
    let (errs, s) = handle_all a ctx rest w' in (err ∷ errs, s)

abbrev pub tasks_of : Option RunState → Tasks
tasks_of none = []
tasks_of (some s) = s.tasks

abbrev pub IsOf : String → Time × Event → Type 0
IsOf uid (now, e) = (e.run_id ≡ uid) × (e.accumulator_group_id ≡ "")

tasks_of-or_else :
    (o : Option RunState) (uid : String) → (or_else o (new_run uid)).tasks ≡ tasks_of o
tasks_of-or_else none uid = refl
tasks_of-or_else (some s) uid = refl

-- The tasks after an event, from the tasks before it.
abbrev task_added : Event → Tasks → Tasks
task_added e ts = if e.resource == resource_task_run then insert e.run_name e ts else ts

module _ {B S : Type 0} (a : AccumulatorConfig B S) (now : Time) (ctx : Context) (e : Event) where
  handle-no_run : (w : Accumulated B S) → (e.run_id == "") ≡ true → handle a now ctx e w ≡ (none, w)
  unfolding handle
  handle-no_run w h = rw h refl

  handle-routed :
      (uid : String) (w : Accumulated B S)
      → (e.run_id == "") ≡ false
      → IsOf uid (now, e)
      → handle a now ctx e w ≡ handle_single a now ctx e uid w
  unfolding handle
  handle-routed uid w h (mine, single) =
      let none_in_group : (e.accumulator_group_id == "") ≡ true =
        ground (arith, eq_iff e.accumulator_group_id "") in
      let routed : handle a now ctx e w ≡ handle_single a now ctx e e.run_id w =
        rw (h, none_in_group) refl in
      routed ∙ ap (λ u. handle_single a now ctx e u w) mine

module _ {C Q S : Type 0} (lru : LruCache C RunState) (store : RunStore Q)
    (laws : RunStoreLaws Q store) (sh : Shared S) (uid : String) where
  abbrev in_memory : AccumulatorConfig (LruBuffer C) S
  in_memory = with_buffer sh (lru_buffer lru)

  abbrev in_store : AccumulatorConfig Q S
  in_store = with_buffer sh (store_buffer store)

  -- Both buffers hold the same tasks of the run.
  abbrev pub Agrees : LruBuffer C → Q → Type 0
  Agrees b q = tasks_of (held lru uid b) ≡ or_else (laws.peek uid q) []

  tasks-add :
      (now : Time) (e : Event) (b : LruBuffer C)
      → tasks_of (held lru uid (add lru now uid e b)) ≡ task_added e (tasks_of (held lru uid b))
  unfolding touch
  tasks-add now e b =
      ap tasks_of (held-add lru now uid e b)
      ∙ ap (task_added e) (tasks_of-or_else (held lru uid b) uid)

  tasks-store_add :
      (e : Event) (q : Q)
      → or_else (laws.peek uid (store_add store uid e q)) []
        ≡ task_added e (or_else (laws.peek uid q) [])
  unfolding store_add
  tasks-store_add e q = elim (Bool-cases (e.resource == resource_task_run)) [
    | inl t ↦ rw t (ap (λ o. or_else o []) (laws.peek-add uid e.run_name e q))
    | inr t ↦ rw t refl
  ]

  add-Agrees :
      (now : Time) (e : Event) (b : LruBuffer C) (q : Q)
      → Agrees b q
      → Agrees (add lru now uid e b) (store_add store uid e q)
  add-Agrees now e b q h = tasks-add now e b ∙ ap (task_added e) h ∙ sym (tasks-store_add e q)

  flush-Agrees :
      (now : Time) (b : LruBuffer C) (q : Q)
      → Agrees ((flush lru uid b).1) ((store_flush store now uid q).1)
  unfolding store_flush
  flush-Agrees now b q =
      ap tasks_of (held-flush lru uid b) ∙ sym (ap (λ o. or_else o []) (laws.peek-flush uid q))

  -- The provider is handed the same aggregate, since it reads of the run only its tasks.
  aggregate-tasks :
      (s t : RunState) (e : Event)
      → s.tasks ≡ t.tasks
      → aggregate_event in_memory uid s e ≡ aggregate_event in_store uid t e
  unfolding aggregate_event render generate_markdown summary_of
  aggregate-tasks s t e h = ap (λ ts. aggregate_event in_memory uid (record s { tasks = ts }) e) h

  -- What the provider is called with when the run's tasks are `ts`.
  abbrev called : Context → Event → Tasks → S → Option Err × S
  called ctx e ts state =
      if is_empty ts
      then (none, state)
      else sh.provider.handle ctx
          (aggregate_event in_store uid (record { uid = uid; tasks = ts; last_update = 0 }) e) state

  post-called_memory :
      (ctx : Context) (e : Event) (o : Option RunState) (w : Accumulated (LruBuffer C) S)
      → let (err, w') = post in_memory ctx uid e o w in
        ((err, w'.state) ≡ called ctx e (tasks_of o) w.state) × (w'.buffer ≡ w.buffer)
  post-called_memory ctx e none w = (refl, refl)
  post-called_memory ctx e (some s) w =
      ground
        (arith, aggregate-tasks s (record { uid = uid; tasks = s.tasks; last_update = 0 }) e refl)

  post-called_store :
      (now : Time) (ctx : Context) (e : Event) (o : Option Tasks) (w : Accumulated Q S)
      → let (err, w') = post in_store ctx uid e (flushed store now uid (ok o)) w in
        ((err, w'.state) ≡ called ctx e (or_else o []) w.state) × (w'.buffer ≡ w.buffer)
  post-called_store now ctx e none w = (refl, refl)
  post-called_store now ctx e (some ts) w =
      let now_run : RunState = record { uid = uid; tasks = ts; last_update = now } in
      let zero_run : RunState = record { uid = uid; tasks = ts; last_update = 0 } in
      ground (
        arith,
        sym (aggregate-tasks zero_run now_run e refl) ∙ aggregate-tasks zero_run zero_run e refl,
      )

  abbrev Same : Accumulated (LruBuffer C) S → Accumulated Q S → Type 0
  Same w v = (w.state ≡ v.state) × Agrees w.buffer v.buffer

  abbrev SameReply :
      Option Err × Accumulated (LruBuffer C) S → Option Err × Accumulated Q S → Type 0
  SameReply (err, w) (err', v) = (err ≡ err') × Same w v

  flush_and_post-Same :
      (now : Time) (ctx : Context) (e : Event) (w : Accumulated (LruBuffer C) S)
      (v : Accumulated Q S)
      → Same w v
      → SameReply
          (flush_and_post in_memory now ctx uid e w)
          (flush_and_post in_store now ctx uid e v)
  unfolding flush_and_post store_flush
  flush_and_post-Same now ctx e w v h =
      let o : Option RunState = (flush lru uid w.buffer).0 in
      let w1 : Accumulated (LruBuffer C) S = record w { buffer = (flush lru uid w.buffer).1 } in
      let v1 : Accumulated Q S = record v { buffer = (store.flush uid v.buffer).1 } in
      let left = post-called_memory ctx e o w1 in
      let right = post-called_store now ctx e (laws.peek uid v.buffer) v1 in
      let same : tasks_of o ≡ or_else (laws.peek uid v.buffer) [] =
        ap tasks_of (flush-held lru uid w.buffer) ∙ h.1 in
      let calls : called ctx e (tasks_of o) w.state
          ≡ called ctx e (or_else (laws.peek uid v.buffer) []) v.state =
        ap (λ ts. called ctx e ts w.state) same
        ∙ ap (called ctx e (or_else (laws.peek uid v.buffer) [])) h.0 in
      rw (laws.flush-peek uid v.buffer) (
        ap (λ p. p.0) (left.0 ∙ calls ∙ sym right.0),
        (
          ap (λ p. p.1) (left.0 ∙ calls ∙ sym right.0),
          ap (λ b. tasks_of (held lru uid b)) left.1
              ∙ flush-Agrees now w.buffer v.buffer
              ∙ sym (ap (λ q. or_else (laws.peek uid q) []) right.1),
        ),
      )

  buffered-Same :
      (now : Time) (e : Event) (w : Accumulated (LruBuffer C) S) (v : Accumulated Q S)
      → Same w v
      → Same
          (if is_buffered e then record w { buffer = add lru now uid e w.buffer } else w)
          (if is_buffered e then record v { buffer = store_add store uid e v.buffer } else v)
  buffered-Same now e w v h = elim (Bool-cases (is_buffered e)) [
    | inl y ↦ rw y (h.0, add-Agrees now e w.buffer v.buffer h.1)
    | inr n ↦ rw n h
  ]

  handle_single-Same :
      (now : Time) (ctx : Context) (e : Event) (w : Accumulated (LruBuffer C) S)
      (v : Accumulated Q S)
      → Same w v
      → SameReply (handle_single in_memory now ctx e uid w) (handle_single in_store now ctx e uid v)
  unfolding handle_single
  handle_single-Same now ctx e w v h = elim (Bool-cases (ends_run e)) [
    | inl y ↦ rw y (flush_and_post-Same now ctx e _ _ (buffered-Same now e w v h))
    | inr n ↦ rw n (refl, buffered-Same now e w v h)
  ]

  handle-Same :
      (now : Time) (ctx : Context) (e : Event) (w : Accumulated (LruBuffer C) S)
      (v : Accumulated Q S)
      → IsOf uid (now, e)
      → Same w v
      → SameReply (handle in_memory now ctx e w) (handle in_store now ctx e v)
  handle-Same now ctx e w v mine h = elim (Bool-cases (e.run_id == "")) [
    | inl y ↦
        rw (handle-no_run in_memory now ctx e w y, handle-no_run in_store now ctx e v y) (refl, h)
    | inr n ↦
        rw
          (
            handle-routed in_memory now ctx e uid w n mine,
            handle-routed in_store now ctx e uid v n mine,
          )
          (handle_single-Same now ctx e w v h)
  ]

  -- Over a store that does not fail, the accumulator returns the same errors and leaves the
  -- provider in the same state as over the buffer in memory, for any events of one run that is in
  -- no group, when both start with the same tasks.
  pub store_buffer_equivalent :
      (ctx : Context) (events : List (Time × Event)) (w : Accumulated (LruBuffer C) S)
      (v : Accumulated Q S)
      → All (IsOf uid) events
      → w.state ≡ v.state
      → Agrees w.buffer v.buffer
      → handle_all in_memory ctx events w ≡ handle_all in_store ctx events v
  unfolding handle_all
  store_buffer_equivalent ctx [] w v mine h g = rw h refl
  store_buffer_equivalent ctx ((now, e) ∷ rest) w v mine h g =
      let same = handle-Same now ctx e w v mine.0 (h, g) in
      let ih =
        store_buffer_equivalent ctx rest ((handle in_memory now ctx e w).1)
          ((handle in_store now ctx e v).1) mine.1 (same.1.0) (same.1.1) in
      rw (same.0, ih) refl

-- Over a store, the events of a group are dropped: the provider is never called.
pub grouped_events_never_post :
    {Q S : Type 0} (store : RunStore Q) (sh : Shared S) (now : Time) (ctx : Context) (e : Event)
    (v : Accumulated Q S)
    → e.accumulator_group_id ≢ ""
    → handle (with_buffer sh (store_buffer store)) now ctx e v ≡ (none, v)
unfolding handle handle_grouped
grouped_events_never_post store sh now ctx e v grouped =
    ground (arith, eq_iff e.accumulator_group_id "")
