-- ===== src/Accumulator/Groups.antt =====
-- Groups of runs: when a group is complete, and what its flush merges.
use tekton_events_relay.Prelude.{
  String, Bool, true, false, ◌&&◌, ◌||◌, Option, none, some, List, [], ◌∷◌, ◌≡◌, refl, arith, ◌==◌,
  eq_refl, eq_iff, lookup, insert, Map, lookup-insert, lookup-erase, or_else, is_some, is_empty,
  ltb, Option-cases, if◌then◌else◌, ap, ◌∙◌,
}
use tekton_events_relay.Domain.{Time, Event}
use tekton_events_relay.Store.Lru.{LruCache}
use tekton_events_relay.Accumulator.{
  RunState, Members, LruBuffer, new_run, composite_key, ends_run, add_member, all_terminal,
  add_with_group, is_group_complete, merge_tasks, merge_found, flush_members, flush_group,
}

-- The members but one are all terminal; and that one is.
abbrev pub others_terminal : String → Members → Bool
others_terminal uid [] = true
others_terminal uid ((j, t) ∷ ms) =
    let rest = others_terminal uid ms in if j == uid then all_terminal ms else t && rest

abbrev pub is_terminal : String → Members → Bool
is_terminal uid ms = or_else (lookup uid ms) false

all_terminal-insert :
    (uid : String) (t : Bool) (ms : Members)
    → all_terminal (insert uid t ms) ≡ (t && others_terminal uid ms)
unfolding all_terminal insert
all_terminal-insert uid t [] = refl
all_terminal-insert uid t ((j, x) ∷ ms) = ground (arith, all_terminal-insert uid t ms)

all_terminal-split :
    (uid : String) (ms : Members)
    → is_some (lookup uid ms) ≡ true
    → all_terminal ms ≡ (is_terminal uid ms && others_terminal uid ms)
unfolding all_terminal lookup
all_terminal-split uid [] h = cc
all_terminal-split uid ((j, x) ∷ ms) h = ground (arith, all_terminal-split uid ms)

is_empty-insert : (uid : String) (t : Bool) (ms : Members) → is_empty (insert uid t ms) ≡ false
unfolding insert
is_empty-insert uid t [] = refl
is_empty-insert uid t ((j, x) ∷ ms) = ground arith

others_terminal-insert :
    (uid : String) (t : Bool) (ms : Members)
    → others_terminal uid (insert uid t ms) ≡ others_terminal uid ms
unfolding insert all_terminal
others_terminal-insert uid t [] = ground (arith, eq_iff uid uid)
others_terminal-insert uid t ((j, x) ∷ ms) =
    ground (arith, others_terminal-insert uid t ms, eq_iff uid uid)

all_terminal-add_member :
    (uid : String) (e : Event) (ms : Members)
    → all_terminal (add_member uid e ms)
      ≡ ((ends_run e || is_terminal uid ms) && others_terminal uid ms)
unfolding add_member
all_terminal-add_member uid e ms = ground (
  arith,
  all_terminal-insert uid true ms,
  all_terminal-insert uid false ms,
  all_terminal-insert uid true (insert uid false ms),
  others_terminal-insert uid false ms,
  all_terminal-split uid ms,
  Option-cases (lookup uid ms),
)

is_empty-add_member :
    (uid : String) (e : Event) (ms : Members) → is_empty (add_member uid e ms) ≡ false
unfolding add_member lookup
is_empty-add_member uid e [] =
    ground (arith, is_empty-insert uid false [], is_empty-insert uid true (insert uid false []))
is_empty-add_member uid e (m ∷ ms) = ground (
  arith,
  is_empty-insert uid false (m ∷ ms),
  is_empty-insert uid true (m ∷ ms),
  is_empty-insert uid true (insert uid false (m ∷ ms)),
)

module _ {C : Type 0} (lru : LruCache C RunState) where
  -- After AddWithGroup the group is complete exactly when the run of the event has ended, by this
  -- event or before, and every other known member has.
  pub is_group_complete-add_with_group :
      (now : Time) (group_id uid : String) (e : Event) (b : LruBuffer C)
      → let ms = or_else (lookup group_id b.groups) [] in
        is_group_complete lru group_id (add_with_group lru now group_id uid e b)
        ≡ ((ends_run e || is_terminal uid ms) && others_terminal uid ms)
  unfolding is_group_complete add_with_group
  is_group_complete-add_with_group now group_id uid e b =
      let ms = or_else (lookup group_id b.groups) [] in
      ground (
        arith,
        lookup-insert group_id group_id (add_member uid e ms) b.groups,
        eq_refl group_id,
        is_empty-add_member uid e ms,
        all_terminal-add_member uid e ms,
      )

lookup-merge_tasks :
    (newer : Bool) (ts into : Map Event) (name : String)
    → is_some (lookup name (merge_tasks newer ts into))
      ≡ (is_some (lookup name into) || is_some (lookup name ts))
unfolding merge_tasks lookup
lookup-merge_tasks newer [] into name = ground arith
lookup-merge_tasks newer ((n, e) ∷ ts) into name = ground (
  arith,
  lookup-merge_tasks newer ts into name,
  lookup-merge_tasks newer ts (insert n e into) name,
  lookup-insert n name e into,
  eq_iff n name,
)

or_assoc : (a b c : Bool) → ((a || b) || c) ≡ (a || (b || c))
or_assoc true b c = refl
or_assoc false b c = refl

abbrev pub run_has : String → Option RunState → Bool
run_has name none = false
run_has name (some s) = is_some (lookup name s.tasks)

abbrev pub any_run_has : String → List (Option RunState) → Bool
any_run_has name [] = false
any_run_has name (r ∷ rs) = run_has name r || any_run_has name rs

lookup-nil : (name : String) → is_some (lookup {V = Event} name []) ≡ false
unfolding lookup
lookup-nil name = refl

run_has-not_empty :
    (name : String) (m : RunState)
    → run_has name (if is_empty m.tasks then none else some m) ≡ is_some (lookup name m.tasks)
unfolding lookup
run_has-not_empty name m = ground arith

lookup-merge_found :
    (found : Option RunState) (merged : RunState) (name : String)
    → is_some (lookup name (merge_found found merged).tasks)
      ≡ (is_some (lookup name merged.tasks) || run_has name found)
lookup-merge_found none merged name = ground arith
lookup-merge_found (some s) merged name =
    lookup-merge_tasks (ltb merged.last_update s.last_update) s.tasks merged.tasks name

module _ {C : Type 0} (lru : LruCache C RunState) where
  abbrev pub next_cache : String → C → C
  next_cache key c =
      let (found, c') = lru.get key c in if is_some found then lru.remove key c' else c'

  -- What the loop of FlushGroup finds of the members, in its order.
  abbrev pub found_runs : String → Members → C → List (Option RunState)
  found_runs group_id [] c = []
  found_runs group_id ((uid, t) ∷ ms) c =
      let key = composite_key group_id uid in
      (lru.get key c).0 ∷ found_runs group_id ms (next_cache key c)

  lookup-flush_members :
      (group_id : String) (ms : Members) (merged : RunState) (c : C) (name : String)
      → is_some (lookup name (flush_members lru group_id ms merged c).0.tasks)
        ≡ (is_some (lookup name merged.tasks) || any_run_has name (found_runs group_id ms c))
  unfolding flush_members
  lookup-flush_members group_id [] merged c name = ground arith
  lookup-flush_members group_id ((uid, t) ∷ ms) merged c name =
      let key = composite_key group_id uid in
      let found = (lru.get key c).0 in
      lookup-flush_members group_id ms (merge_found found merged) (next_cache key c) name
      ∙ ap (λ b. b || any_run_has name (found_runs group_id ms (next_cache key c)))
          (lookup-merge_found found merged name)
      ∙ or_assoc (is_some (lookup name merged.tasks)) (run_has name found) _

  -- FlushGroup of a known group returns a run that has a task of a name exactly if the buffered
  -- run of some member has one, in whatever order the members are visited; and the group is
  -- forgotten.
  pub flush_group-known :
      (group_id : String) (ms : Members) (b : LruBuffer C) (name : String)
      → lookup group_id b.groups ≡ some ms
      → let (merged, b') = flush_group lru group_id b in
        (run_has name merged ≡ any_run_has name (found_runs group_id ms b.cache))
        × (lookup group_id b'.groups ≡ none)
  unfolding flush_group
  flush_group-known group_id ms b name known =
      let merged = (flush_members lru group_id ms (new_run group_id) b.cache).0 in
      rw known (
        run_has-not_empty name merged
            ∙ lookup-flush_members group_id ms (new_run group_id) b.cache name
            ∙ ground (arith, lookup-nil name),
        ground (arith, lookup-erase group_id group_id b.groups, eq_refl group_id),
      )
