-- ===== src/Receiver.antt =====
-- internal/http/handler.go: what the relay answers to a CloudEvent and what becomes of its event;
-- with the decoder registry of internal/event/event.go.
pub mod Replies
pub mod Redelivery
pub mod Replay
pub mod Listing
pub mod Analytics
pub mod Preservation
use tekton_events_relay.Prelude.{
  ℕ, String, Bool, true, false, Option, none, some, List, [], ◌∷◌, if◌then◌else◌,
}
use tekton_events_relay.Domain.{Time, Envelope}
use tekton_events_relay.Errors.{Err, Result, ok, err, is_retryable}
use tekton_events_relay.Notifier.{Context}
use tekton_events_relay.Pipeline.{World, Outcome, Link}
use tekton_events_relay.Dlq.{Queue}

pub record RawEvent : Type 0 where
  pub id : String
  pub event_type : String
  pub source : String
  pub payload : List ℕ  -- the bytes of Data

pub record Decoder : Type 0 where
  pub name : String
  pub can_handle : String → Bool
  pub decode : RawEvent → Result Envelope

-- Registry.Find: the first decoder that can handle the type.
unfoldable pub find_decoder : String → List Decoder → Option Decoder
find_decoder t [] = none
find_decoder t (d ∷ ds) = if d.can_handle t then some d else find_decoder t ds

abbrev pub status_ok : ℕ
status_ok = 200

abbrev pub status_bad_request : ℕ
status_bad_request = 400

abbrev pub status_unavailable : ℕ
status_unavailable = 503

-- The world of the chain and the dead letter queue.
pub record Relay (S : Type 0) (Q : Type 0) : Type 0 where
  pub world : World S
  pub dead : Q

-- The context of a request: no CloudEvent id, no deadline of the relay's own.
abbrev pub request_context : Context
request_context = record { cloud_event_id = none; timeout = none }

-- preserveInDLQ; a nil queue stores nothing, and an error of the queue is only logged.
abbrev pub preserve : {Q : Type 0} → Option (Queue Q) → Time → Envelope → Err → Q → Q
preserve none now env cause q = q
preserve (some queue) now env cause q = (queue.enqueue now env cause q).1

abbrev pub decode_with : Option Decoder → RawEvent → Option Envelope
decode_with none raw = none
decode_with (some d) raw = elim (d.decode raw) [ ok env ↦ some env | err e ↦ none ]

-- decodeEvent: no decoder, and an error of the decoder, discard the event.
unfoldable pub decode_event : List Decoder → RawEvent → Option Envelope
unfolding find_decoder
decode_event decoders raw = decode_with (find_decoder raw.event_type decoders) raw

module _ {S Q : Type 0} where
  abbrev answer : Option (Queue Q) → Time → Outcome S → Q → ℕ × Relay S Q
  answer queue now o q = elim o.err [
    | none ↦ (status_ok, record { world = o.world; dead = q })
    | some e ↦
        if is_retryable e
        then (status_unavailable, record { world = o.world; dead = q })
        else (status_ok, record { world = o.world; dead = preserve queue now o.env e q })
  ]

  -- handleChainResult; the envelope is stored as the chain left it.
  unfoldable pub handle_chain_result :
      Link S → Option (Queue Q) → Time → Envelope → Relay S Q → ℕ × Relay S Q
  handle_chain_result chain queue now env r =
      answer queue now (chain request_context env r.world) r.dead

  -- CloudEventsHandler; `none` is a request that cehttp.FromRequest refuses.
  unfoldable pub receive :
      List Decoder → Link S → Option (Queue Q) → Time → Option RawEvent → Relay S Q → ℕ × Relay S Q
  unfolding decode_event handle_chain_result
  receive decoders chain queue now none r = (status_bad_request, r)
  receive decoders chain queue now (some raw) r = elim (decode_event decoders raw) [
    | none ↦ (status_ok, r)
    | some env ↦ handle_chain_result chain queue now env r
  ]
