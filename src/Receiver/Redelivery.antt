-- ===== src/Receiver/Redelivery.antt =====
-- A CloudEvent that is delivered again: what the deduper lets through.
use tekton_events_relay.Prelude.{
  ℕ, String, Bool, true, false, not, Option, none, some, List, ◌≡◌, refl, ◌∙◌, ap, arith,
}
use tekton_events_relay.Domain.{Time, Envelope}
use tekton_events_relay.Errors.{ok, is_retryable?}
use tekton_events_relay.Pipeline.{World, Outcome, done}
use tekton_events_relay.Pipeline.Links.{DedupeStore, invalid, passes_filter}
use tekton_events_relay.Pipeline.Chain.{Setup, after_deduper, relay_chain}
use tekton_events_relay.Pipeline.Chain.Laws.{relay_chain_dedupes, asked}
use tekton_events_relay.Dlq.{Queue}
use tekton_events_relay.Receiver.{
  Decoder, RawEvent, Relay, receive, decode_event, request_context, status_ok, status_unavailable,
}
use tekton_events_relay.Receiver.Replies.{receive_decoded}

-- What store.go promises of FirstSeen: it says whether the id is new, and records it. `seen` is the
-- view of the state that an implementation has to give.
pub record DedupeLaws (S : Type 0) (store : DedupeStore S) : Type 0 where
  pub seen : String → S → Bool
  pub answers : (id : String) (s : S) → (store.first_seen id s).0 ≡ ok (not (seen id s))
  pub records : (id : String) (s : S) → seen id (store.first_seen id s).1 ≡ true

module _ {S : Type 0} (c : Setup S) (laws : DedupeLaws S c.store) where
  -- The handlers do not make the store forget an id.
  pub record StoreKept (env : Envelope) : Type 0 where
    pub kept :
        (w : World S)
        → laws.seen env.cloud_event_id w.state ≡ true
        → laws.seen env.cloud_event_id (after_deduper c request_context env w).world.state ≡ true

module _ {S Q : Type 0} (c : Setup S) (laws : DedupeLaws S c.store) (queue : Option (Queue Q))
    (env : Envelope) (r : Relay S Q) (valid : invalid env ≡ none)
    (passing : passes_filter c.path_match c.filter env ≡ true) where
  -- The first delivery runs the rest of the chain on the world of which the store was asked.
  first_delivery :
      laws.seen env.cloud_event_id r.world.state ≡ false
      → relay_chain c request_context env r.world
        ≡ after_deduper c request_context env (asked c request_context env r.world)
  first_delivery new =
      relay_chain_dedupes c request_context env r.world valid passing
      ∙ ground (arith, laws.answers env.cloud_event_id r.world.state)

  pub later_delivery :
      laws.seen env.cloud_event_id r.world.state ≡ true
      → relay_chain c request_context env r.world ≡ done env (asked c request_context env r.world)
  later_delivery old =
      relay_chain_dedupes c request_context env r.world valid passing
      ∙ ground (arith, laws.answers env.cloud_event_id r.world.state)

  still_seen :
      StoreKept c laws env
      → laws.seen env.cloud_event_id r.world.state ≡ false
      → laws.seen env.cloud_event_id (relay_chain c request_context env r.world).world.state ≡ true
  still_seen kept new =
      ap (λ (o : Outcome S). laws.seen env.cloud_event_id o.world.state) (first_delivery new)
      ∙ kept.kept (asked c request_context env r.world)
          (laws.records env.cloud_event_id r.world.state)

module _ {S Q : Type 0} (c : Setup S) (laws : DedupeLaws S c.store) (queue : Option (Queue Q))
    (decoders : List Decoder) (now now' : Time) (raw : RawEvent) (env : Envelope)
    (r : Relay S Q) where
  -- The second of two deliveries of one CloudEvent.
  abbrev pub again : Relay S Q → ℕ × Relay S Q
  again r' = receive decoders (relay_chain c) queue now' (some raw) r'

  abbrev pub once : ℕ × Relay S Q
  once = receive decoders (relay_chain c) queue now (some raw) r

  ignored :
      (r' : Relay S Q)
      → decode_event decoders raw ≡ some env
      → invalid env ≡ none
      → passes_filter c.path_match c.filter env ≡ true
      → laws.seen env.cloud_event_id r'.world.state ≡ true
      → again r' ≡ (status_ok, record r' { world = asked c request_context env r'.world })
  ignored r' decoded valid passing old =
      receive_decoded decoders (relay_chain c) queue now' raw r' env decoded
      ∙ rw (later_delivery c laws queue env r' valid passing old) refl

  -- Two deliveries of one valid, unfiltered CloudEvent whose id is new to the dedupe store: the
  -- second is answered 200, calls no handler and leaves the dead letter queue alone; it only asks
  -- the store. Conditions: the store keeps its contract, and the handlers do not make it forget
  -- the id.
  pub redelivery_ignored :
      StoreKept c laws env
      → decode_event decoders raw ≡ some env
      → invalid env ≡ none
      → passes_filter c.path_match c.filter env ≡ true
      → laws.seen env.cloud_event_id r.world.state ≡ false
      → again once.1
        ≡ (status_ok, record once.1 { world = asked c request_context env once.1.world })
  redelivery_ignored kept decoded valid passing new = ignored once.1 decoded valid passing (
      ap (λ (p : ℕ × Relay S Q). laws.seen env.cloud_event_id p.1.world.state)
        (receive_decoded decoders (relay_chain c) queue now raw r env decoded)
      ∙ still_seen c laws queue env r valid passing kept new)

  -- Two deliveries of one valid, unfiltered CloudEvent whose id is new to the dedupe store, where
  -- the chain ends in a retryable error: the first is answered 503 and stores nothing in the dead
  -- letter queue, and the retry that the 503 asks for is answered 200, calls no handler and only
  -- asks the store. Conditions: the store keeps its contract, and the handlers do not make it
  -- forget the id.
  pub retry_swallowed :
      StoreKept c laws env
      → decode_event decoders raw ≡ some env
      → invalid env ≡ none
      → passes_filter c.path_match c.filter env ≡ true
      → laws.seen env.cloud_event_id r.world.state ≡ false
      → is_retryable? (relay_chain c request_context env r.world).err ≡ true
      → (once.0 ≡ status_unavailable)
        × (once.1.dead ≡ r.dead)
        × (again once.1
            ≡ (status_ok, record once.1 { world = asked c request_context env once.1.world }))
  retry_swallowed kept decoded valid passing new fails =
      let p = receive_decoded decoders (relay_chain c) queue now raw r env decoded in
      (
        ap (λ (x : ℕ × Relay S Q). x.0) p ∙ rw fails refl,
        ap (λ (x : ℕ × Relay S Q). x.1.dead) p ∙ ground (arith, fails),
        redelivery_ignored kept decoded valid passing new,
      )
