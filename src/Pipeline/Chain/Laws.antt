-- ===== src/Pipeline/Chain/Laws.antt =====
-- What stops an envelope in front of the dispatcher, and what that leaves behind.
use tekton_events_relay.Prelude.{◌⊎◌, Bool, true, false, none, ◌≡◌, arith, is_some, if◌then◌else◌}
use tekton_events_relay.Domain.{Envelope}
use tekton_events_relay.Errors.{Result, ok, err}
use tekton_events_relay.Notifier.{Context}
use tekton_events_relay.Pipeline.{World, done}
use tekton_events_relay.Pipeline.Links.{
  invalid, passes_filter, enriched, validator, event_filter, deduper, after_first_seen, enricher,
}
use tekton_events_relay.Pipeline.Dispatcher.Runs.{env-dispatch}
use tekton_events_relay.Pipeline.Chain.{Setup, after_deduper, relay_chain}

abbrev pub is_duplicate : Result Bool → Bool
is_duplicate (ok false) = true
is_duplicate (ok true) = false
is_duplicate (err e) = false

module _ {S : Type 0} (c : Setup S) (ctx : Context) (env : Envelope) (w : World S) where
  -- The state of the world once the store was asked.
  abbrev pub asked : World S
  asked = record w { state = (c.store.first_seen env.cloud_event_id w.state).1 }

  -- An invalid envelope ends in the validator's error, and a filtered one in none; neither is
  -- recorded in the dedupe store, reaches a handler or is changed.
  pub relay_chain_rejects :
      (is_some (invalid env) ≡ true) ⊎ (passes_filter c.path_match c.filter env ≡ false)
      → relay_chain c ctx env w ≡ record { err = invalid env; env = env; world = w }
  unfolding relay_chain
  relay_chain_rejects h = ground arith

  -- An envelope that is valid and passes the filter is asked for at the store once. If the store
  -- says that it saw the id before, nothing more happens; if it is new, or the store fails, the
  -- rest of the chain runs on it.
  pub relay_chain_dedupes :
      invalid env ≡ none
      → passes_filter c.path_match c.filter env ≡ true
      → relay_chain c ctx env w ≡ (
          if is_duplicate (c.store.first_seen env.cloud_event_id w.state).0
          then done env asked
          else after_deduper c ctx env asked)
  unfolding relay_chain after_deduper
  relay_chain_dedupes v p = ground arith

  enriched-id : (enriched c.path_escape c.dashboard_url env).cloud_event_id ≡ env.cloud_event_id
  unfolding enriched
  enriched-id = ground arith

  -- Whatever a link writes, the identifier stays.
  pub relay_chain-id : (relay_chain c ctx env w).env.cloud_event_id ≡ env.cloud_event_id
  unfolding relay_chain validator event_filter deduper after_first_seen enricher
  relay_chain-id = ground (
    arith,
    enriched-id,
    env-dispatch c.scheduler c.dispatcher ctx (enriched c.path_escape c.dashboard_url env) asked,
    env-dispatch c.scheduler c.dispatcher ctx (enriched c.path_escape c.dashboard_url env) w,
  )
