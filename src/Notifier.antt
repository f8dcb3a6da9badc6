-- ===== src/Notifier.antt =====
-- internal/notifier/notifier.go: the interface of an action handler and the registry of them.
pub mod Batch
pub mod Slack
pub mod Discord
pub mod Laws
pub mod Wrappers
use tekton_events_relay.Prelude.{
  ℕ, String, Option, none, some, List, [], ◌∷◌, ◌++◌, ◌<>◌, Map, lookup, insert, or_else,
}
use tekton_events_relay.Domain.{Event}
use tekton_events_relay.Errors.{Err}

-- What a handler reads of its context: the value under CloudEventIDKey and the time allowed.
pub record Context : Type 0 where
  pub cloud_event_id : Option String
  pub timeout : Option ℕ

abbrev pub ActionType : Type 0
ActionType = String

abbrev pub action_notify : ActionType
action_notify = "notify"

-- `S` is the state on which the handlers act: remote services, buffers, stores.
pub record ActionHandler (S : Type 0) : Type 0 where
  pub name : String
  pub provider : String
  pub action_type : ActionType
  pub handle : Context → Event → S → Option Err × S
  pub close : S → Option Err × S

abbrev pub handler_key : {S : Type 0} → ActionHandler S → String
handler_key h = h.provider <> "/" <> h.name

pub record Registry (S : Type 0) : Type 0 where
  pub handlers : List (ActionHandler S)
  pub by_name : Map (List (ActionHandler S))
  pub by_type : Map (List (ActionHandler S))

-- A missing key of a map of slices reads as the nil slice.
abbrev pub slice_at : {S : Type 0} → Map (List (ActionHandler S)) → String → List (ActionHandler S)
slice_at m k = or_else (lookup k m) []

module _ {S : Type 0} where
  unfoldable pub new_registry : Registry S
  new_registry = record { handlers = []; by_name = []; by_type = [] }

  unfoldable pub register : Registry S → ActionHandler S → Registry S
  register r h = record {
    handlers = r.handlers ++ h ∷ [];
    by_name = insert h.name (slice_at r.by_name h.name ++ h ∷ []) r.by_name;
    by_type = insert h.action_type (slice_at r.by_type h.action_type ++ h ∷ []) r.by_type;
  }

  unfoldable pub find_by_name : Registry S → String → List (ActionHandler S)
  find_by_name r name = slice_at r.by_name name

  unfoldable pub find_by_type : Registry S → ActionType → List (ActionHandler S)
  find_by_type r t = slice_at r.by_type t

  unfoldable pub all_handlers : Registry S → List (ActionHandler S)
  all_handlers r = r.handlers

  abbrev pub first : List (ActionHandler S) → Option (ActionHandler S)
  first [] = none
  first (h ∷ hs) = some h

  unfoldable pub lookup_handler : Registry S → String → Option (ActionHandler S)
  lookup_handler r name = first (slice_at r.by_name name)

  -- The registrations that internal/factory makes at start and at a reload.
  unfoldable pub register_all : Registry S → List (ActionHandler S) → Registry S
  unfolding register
  register_all r [] = r
  register_all r (h ∷ hs) = register_all (register r h) hs
