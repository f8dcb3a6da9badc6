-- ===== src/Pipeline/Chain.antt =====
-- buildChain of cmd/receiver/main.go: the links in their order, with the nil test of the validator
-- in front. WithMetrics, which wraps every link there, passes calls, errors and SetNext through.
pub mod Laws
pub mod Admission
pub mod Switches
pub mod Reasons
use tekton_events_relay.Prelude.{String, Option, none, some, List, [], ◌∷◌}
use tekton_events_relay.Domain.{Envelope}
use tekton_events_relay.Errors.{Err, plain}
use tekton_events_relay.Notifier.{Context}
use tekton_events_relay.Pipeline.{World, Outcome, Link, build}
use tekton_events_relay.Pipeline.Links.{
  EventFilter, DedupeStore, validator, event_filter, deduper, enricher,
}
use tekton_events_relay.Pipeline.Links.Namespaces.{PathMatch}
use tekton_events_relay.Pipeline.Dispatcher.{Dispatcher, Scheduler, dispatch}

-- What a chain is built from: the configuration, the store and the registry, and the functions of
-- the standard library and choices of the runtime that its links use.
pub record Setup (S : Type 0) : Type 0 where
  pub filter : EventFilter
  pub store : DedupeStore S
  pub dashboard_url : String
  pub dispatcher : Dispatcher S
  pub scheduler : Scheduler S
  pub path_match : PathMatch
  pub path_escape : String → String

module _ {S : Type 0} where
  -- The part of the chain behind the deduper.
  unfoldable pub after_deduper : Setup S → Link S
  unfolding enricher build
  after_deduper c =
      build (enricher c.path_escape c.dashboard_url ∷ dispatch c.scheduler c.dispatcher ∷ [])

  -- buildChain
  unfoldable pub relay_chain : Setup S → Link S
  unfolding validator event_filter deduper enricher build
  relay_chain c = build (
      validator
      ∷ event_filter c.path_match c.filter
      ∷ deduper c.store
      ∷ enricher c.path_escape c.dashboard_url
      ∷ dispatch c.scheduler c.dispatcher
      ∷ [])
