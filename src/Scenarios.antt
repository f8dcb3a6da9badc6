-- ===== src/Scenarios.antt =====
-- Concrete inputs on which the theorems are run: a site with a dedupe store, two handlers, a queue
-- in memory, a disk, a cache and a decoder.
mod Chain
mod Dead
mod Buffers
mod Wrapped
mod Runs
mod Rings
mod Batches
mod Servers
mod Chats
use mathlib.Core.List.{Perm}
use mathlib.Core.List.Perm
use tekton_events_relay.Prelude.{
  ℕ, ◌+◌, String, Bool, true, false, not, Option, none, some, List, [], ◌∷◌, ◌++◌, map, ◌≡◌, refl,
  sym, arith, ◌==◌, Map, lookup, insert, erase, lookup-insert, lookup-erase, eq_refl, eq_iff,
  is_some, length, filter, if◌then◌else◌, ◌⊎◌, inl, inr, Bool-cases, leb, subst,
}
use tekton_events_relay.Domain.{
  Event, zero_event, Envelope, resource_task_run, resource_pipeline_run, state_success,
}
use tekton_events_relay.Errors.{Err, plain, retryable, Result, ok, err}
use tekton_events_relay.Notifier.{Context, ActionHandler, new_registry, register_all}
use tekton_events_relay.Pipeline.{World}
use tekton_events_relay.Pipeline.Links.{DedupeStore, EventFilter}
use tekton_events_relay.Pipeline.Dispatcher.{Dispatcher, Turn, Scheduler}
use tekton_events_relay.Pipeline.Chain.{Setup}
use tekton_events_relay.Dlq.{DeadEvent, Queue}
use tekton_events_relay.Dlq.File.{Codec, limited, remove_id, upsert, new_entry}
use tekton_events_relay.Receiver.{RawEvent, Decoder, Relay}
use tekton_events_relay.Receiver.Redelivery.{DedupeLaws}
use tekton_events_relay.Store.Lru.{LruCache}

abbrev pub task_event : Event
task_event = record zero_event {
  provider = "github";
  resource = "taskrun";
  run_name = "build-1";
  run_id = "uid-1";
  namespace = "ci";
  task_name = "build";
  state = "success";
}

abbrev pub run_event : Event
run_event = record task_event { resource = "pipelinerun"; run_name = "run-1" }

abbrev pub envelope : Envelope
envelope = record {
  cloud_event_id = "e1";
  cloud_event_type = "dev.tekton.event.taskrun.successful.v1";
  source = "/apis/ci";
  report = task_event;
}

abbrev pub raw : RawEvent
raw = record {
  id = "e1";
  event_type = "dev.tekton.event.taskrun.successful.v1";
  source = "/apis/ci";
  payload = 123 ∷ 125 ∷ [];
}

abbrev pub decoders : List Decoder
decoders = (record { name = "fixed"; can_handle = λ t. true; decode = λ r. ok envelope }) ∷ []

-- The ids that the store has seen, and the names of the handlers that were called.
abbrev pub Site : Type 0
Site = Map (Unit {0}) × List String

abbrev see : String → Option (Unit {0}) → Site → Result Bool × Site
see id none s = (ok true, (insert id tt s.0, s.1))
see id (some u) s = (ok false, s)

abbrev pub store : DedupeStore Site
store = record { first_seen = λ id s. see id (lookup id s.0) s }

see-answers :
    (id : String) (x : Option (Unit {0})) (s : Site) → (see id x s).0 ≡ ok (not (is_some x))
see-answers id none s = refl
see-answers id (some u) s = refl

see-records :
    (id : String) (x : Option (Unit {0})) (s : Site)
    → lookup id s.0 ≡ x
    → is_some (lookup id (see id x s).1.0) ≡ true
see-records id none s h = rw (lookup-insert id id tt s.0) (rw (eq_refl id) refl)
see-records id (some u) s h = rw h refl

abbrev pub store_laws : DedupeLaws Site store
unfolding see-answers see-records
store_laws = record {
  seen = λ id s. is_some (lookup id s.0);
  answers = λ id s. see-answers id (lookup id s.0) s;
  records = λ id s. see-records id (lookup id s.0) s refl;
}

abbrev pub handler : String → String → Option Err → ActionHandler Site
handler name provider answer = record {
  name = name;
  provider = provider;
  action_type = "commit_status";
  handle = λ ctx e s. (answer, (s.0, name ∷ s.1));
  close = λ s. (none, s);
}

abbrev pub github : ActionHandler Site
github = handler "gh" "github" none

abbrev pub gitlab : ActionHandler Site
gitlab = handler "gl" "gitlab" none

abbrev pub failing : ActionHandler Site
failing = handler "gh2" "github" (some (retryable (plain "429") "rate_limit"))

abbrev pub broken : ActionHandler Site
broken = handler "gh3" "github" (some (plain "404"))

abbrev pub dispatcher : List (ActionHandler Site) → Dispatcher Site
unfolding register_all new_registry
dispatcher hs = record {
  registry = register_all new_registry hs;
  handler_timeout = 30000000000;
  fallbacks = none;
  fallback_only = [];
}

abbrev turn : ActionHandler Site → Turn Site
turn h = record { handler = h; stopped = none; finished_at = 7 }

map-turn : (hs : List (ActionHandler Site)) → map (λ t. t.handler) (map turn hs) ≡ hs
map-turn [] = refl
map-turn (h ∷ hs) = ground (arith, map-turn hs)

abbrev pub in_order : Scheduler Site
unfolding map-turn
in_order = record {
  turns = map turn;
  one_turn_each = λ hs. subst (λ xs. Perm xs hs) (sym (map-turn hs)) (Perm.refl hs);
}

abbrev pub pass_all : EventFilter
pass_all = record {
  allow_task_run = true;
  allow_pipeline_run = true;
  allow_custom_run = true;
  allow_event_listener = true;
  ignore_unknown = false;
  allow_namespaces = [];
  deny_namespaces = [];
}

abbrev pub setup : List (ActionHandler Site) → Setup Site
setup hs = record {
  filter = pass_all;
  store = store;
  dashboard_url = "https://dash";
  dispatcher = dispatcher hs;
  scheduler = in_order;
  path_match = λ p ns. some (p == ns);
  path_escape = λ s. s;
}

abbrev pub fresh : World Site
fresh = record { state = ([], []); tracker = none }

-- A queue in memory.
abbrev pub memory_queue : Queue (List DeadEvent)
unfolding upsert
memory_queue = record {
  enqueue = λ now env cause q. (none, upsert (new_entry now env cause) q);
  list = λ limit q. (ok (limited limit q), q);
  remove = λ id q. (none, remove_id id q);
  size = λ q. (ok (length q), q);
  scan = λ q. (ok q, q);
}

abbrev pub dead : String → DeadEvent
dead id = record {
  id = id;
  failed_at = 5;
  cause = "404";
  retry_count = 0;
  envelope = some envelope;
}

abbrev pub relay : Relay Site (List DeadEvent)
relay = record { world = fresh; dead = dead "e0" ∷ [] }

-- A line is its event, and is `n` bytes long.
abbrev pub codec : ℕ → Codec DeadEvent
codec n = record {
  marshal = λ e. e;
  unmarshal = some;
  size = λ e. n + 1;
  unmarshal-marshal = λ e. refl;
  marshal_not_empty = λ e. omega arith;
}

insert_other :
    {V : Type 0} (k j : String) (v : V) (c : Map V)
    → (lookup j (insert k v c) ≡ lookup j c) ⊎ (lookup j (insert k v c) ≡ none) ⊎ (k ≡ j)
insert_other k j v c = elim (Bool-cases (k == j)) [
  | inl same ↦ inr (inr (ground (arith, same, eq_iff k j)))
  | inr other ↦ inl (rw (lookup-insert k j v c) (rw other refl))
]

-- A cache that never evicts.
abbrev pub map_cache : {V : Type 0} → LruCache (Map V) V
unfolding lookup insert_other
map_cache = record {
  get = λ k c. (lookup k c, c);
  add = insert;
  remove = erase;
  purge = λ c. [];
  peek = lookup;
  get-peek = λ k c. refl;
  peek-get = λ k j c. refl;
  peek-add_self = λ k v c. rw (lookup-insert k k v c) (rw (eq_refl k) refl);
  peek-add_other = insert_other;
  peek-remove = lookup-erase;
  peek-purge = λ j c. refl;
}
