-- ===== src/Accumulator.antt =====
-- internal/accumulator/buffer.go: the buffer of task events by run, and of runs by group.
pub mod Groups
pub mod Runs
pub mod Markdown
pub mod Buffers
pub mod Handler
use tekton_events_relay.Prelude.{
  ℕ, String, Bool, true, false, not, ◌&&◌, Option, none, some, List, [], ◌∷◌, ◌==◌, ◌<>◌, Map,
  lookup, insert, erase, or_else, is_some, is_empty, ltb, if◌then◌else◌,
}
use tekton_events_relay.Domain.{
  Time, Event, resource_task_run, resource_pipeline_run, is_terminal_state,
}
use tekton_events_relay.Store.Lru.{LruCache}

pub record RunState : Type 0 where
  pub uid : String
  pub tasks : Map Event
  pub last_update : Time

-- The members of a group: uid → whether the run is terminal.
abbrev pub Members : Type 0
Members = Map Bool

-- LRUBuffer
pub record LruBuffer (C : Type 0) : Type 0 where
  pub cache : C
  pub groups : Map Members

abbrev pub new_run : String → RunState
new_run uid = record { uid = uid; tasks = []; last_update = 0 }

-- The update of a run by an event, in Add and in AddWithGroup.
unfoldable pub touch : Time → Event → RunState → RunState
touch now e s = record s {
  tasks = if e.resource == resource_task_run then insert e.run_name e s.tasks else s.tasks;
  last_update = now;
}

-- compositeKey
unfoldable pub composite_key : String → String → String
composite_key group_id uid = if group_id == "" then uid else group_id <> ":" <> uid

-- `e.Resource == ResourcePipelineRun && isTerminalState(e.State)`
unfoldable pub ends_run : Event → Bool
unfolding is_terminal_state
ends_run e = e.resource == resource_pipeline_run && is_terminal_state e.state

abbrev joined : String → Members → Members
joined uid ms = if is_some (lookup uid ms) then ms else insert uid false ms

-- What AddWithGroup does to the members of the group.
unfoldable pub add_member : String → Event → Members → Members
add_member uid e ms = if ends_run e then insert uid true (joined uid ms) else joined uid ms

-- The loop of IsGroupComplete.
pub all_terminal : Members → Bool
all_terminal [] = true
all_terminal ((uid, terminal) ∷ ms) = terminal && all_terminal ms

abbrev complete : Option Members → Bool
complete none = false
complete (some ms) = not (is_empty ms) && all_terminal ms

-- The inner loop of FlushGroup over the tasks of one run: a task that is new is taken, and one
-- that is there is replaced if this run was updated after all runs before it.
unfoldable pub merge_tasks : Bool → Map Event → Map Event → Map Event
merge_tasks newer [] into = into
merge_tasks newer ((name, e) ∷ ts) into = merge_tasks newer ts (
    if not (is_some (lookup name into))
    then insert name e into
    else if newer
    then insert name e into
    else into)

abbrev pub merge_run : RunState → RunState → RunState
merge_run state merged =
    let newer = ltb merged.last_update state.last_update in
    record merged {
      tasks = merge_tasks newer state.tasks merged.tasks;
      last_update = if newer then state.last_update else merged.last_update;
    }

abbrev pub merge_found : Option RunState → RunState → RunState
merge_found none merged = merged
merge_found (some state) merged = merge_run state merged

module _ {C : Type 0} (lru : LruCache C RunState) where
  abbrev put_run : Time → String → String → Event → C → C
  put_run now key uid e c =
      let (found, c') = lru.get key c in lru.add key (touch now e (or_else found (new_run uid))) c'

  -- Add
  unfoldable pub add : Time → String → Event → LruBuffer C → LruBuffer C
  unfolding touch
  add now uid e b = record b { cache = put_run now uid uid e b.cache }

  -- Get, which copies.
  unfoldable pub get : String → LruBuffer C → Option RunState × LruBuffer C
  get uid b = let (found, c) = lru.get uid b.cache in (found, record b { cache = c })

  -- Flush
  unfoldable pub flush : String → LruBuffer C → Option RunState × LruBuffer C
  flush uid b =
      let (found, c) = lru.get uid b.cache in
      (found, record b { cache = if is_some found then lru.remove uid c else c })

  -- Close
  unfoldable pub close : LruBuffer C → LruBuffer C
  close b = record { cache = lru.purge b.cache; groups = [] }

  -- AddWithGroup
  unfoldable pub add_with_group : Time → String → String → Event → LruBuffer C → LruBuffer C
  unfolding touch composite_key add_member ends_run
  add_with_group now group_id uid e b = record {
    cache = put_run now (composite_key group_id uid) uid e b.cache;
    groups = insert group_id (add_member uid e (or_else (lookup group_id b.groups) [])) b.groups;
  }

  -- IsGroupComplete
  unfoldable pub is_group_complete : String → LruBuffer C → Bool
  unfolding all_terminal
  is_group_complete group_id b = complete (lookup group_id b.groups)

  -- The outer loop of FlushGroup, in the order in which `range` visits the members.
  unfoldable pub flush_members : String → Members → RunState → C → RunState × C
  unfolding merge_tasks composite_key
  flush_members group_id [] merged c = (merged, c)
  flush_members group_id ((uid, terminal) ∷ ms) merged c =
      let key = composite_key group_id uid in
      let (found, c') = lru.get key c in
      flush_members group_id ms (merge_found found merged)
        (if is_some found then lru.remove key c' else c')

  abbrev flush_known : String → Option Members → LruBuffer C → Option RunState × LruBuffer C
  flush_known group_id none b = (none, b)
  flush_known group_id (some ms) b =
      let (merged, c) = flush_members group_id ms (new_run group_id) b.cache in
      (
        if is_empty merged.tasks then none else some merged,
        record { cache = c; groups = erase group_id b.groups },
      )

  -- FlushGroup
  unfoldable pub flush_group : String → LruBuffer C → Option RunState × LruBuffer C
  unfolding flush_members
  flush_group group_id b = flush_known group_id (lookup group_id b.groups) b
