-- ===== src/Pipeline.antt =====
-- internal/pipeline/chain.go: the chain of links through which each envelope goes.
pub mod Links
pub mod Dispatcher
pub mod Chain
use tekton_events_relay.Prelude.{Option, none, some, List, [], ◌∷◌}
use tekton_events_relay.Domain.{Envelope}
use tekton_events_relay.Errors.{Err}
use tekton_events_relay.Notifier.{Context}
use tekton_events_relay.Status.{StatusTracker}

-- `S` is the state of the handlers and stores; the tracker may be nil.
pub record World (S : Type 0) : Type 0 where
  pub state : S
  pub tracker : Option StatusTracker

-- A link gets a pointer to the envelope and may write through it: the caller sees `env` afterwards.
pub record Outcome (S : Type 0) : Type 0 where
  pub err : Option Err
  pub env : Envelope
  pub world : World S

abbrev pub Link : Type 0 → Type 0
Link S = Context → Envelope → World S → Outcome S

module _ {S : Type 0} where
  -- `return nil` of a link, which ends the walk.
  abbrev pub done : Envelope → World S → Outcome S
  done env w = record { err = none; env = env; world = w }

  abbrev pub fail : Err → Envelope → World S → Outcome S
  fail e env w = record { err = some e; env = env; world = w }

  -- BaseHandler.Next behind the last link.
  unfoldable pub end_of_chain : Link S
  end_of_chain ctx env w = done env w

  -- Build; a handler is what it does for each successor, and SetNext gives it the one behind it.
  unfoldable pub build : List (Link S → Link S) → Link S
  unfolding end_of_chain
  build [] = end_of_chain
  build (h ∷ hs) = h (build hs)
