-- ===== src/Receiver/Replies.antt =====
-- The answers to a CloudEvent: which outcome of the chain gives which status and storage.
use tekton_events_relay.Prelude.{Option, none, some, List, ◌≡◌, arith, if◌then◌else◌}
use tekton_events_relay.Domain.{Time, Envelope}
use tekton_events_relay.Errors.{is_retryable, is_retryable?}
use tekton_events_relay.Pipeline.{Outcome, Link}
use tekton_events_relay.Dlq.{Queue}
use tekton_events_relay.Receiver.{
  Decoder, RawEvent, Relay, receive, decode_event, request_context, preserve, status_ok,
  status_unavailable,
}

module _ {S Q : Type 0} where
  -- What the queue holds after a permanent error, and after any other outcome.
  abbrev pub dead_after : Option (Queue Q) → Time → Outcome S → Q → Q
  dead_after queue now o q = elim o.err [
    | none ↦ q
    | some e ↦ if is_retryable e then q else preserve queue now o.env e q
  ]

  -- A decoded event is answered 503 exactly when the chain's error is retryable, and 200
  -- otherwise; the world is the chain's, and the event is put in the dead letter queue, as the
  -- chain left it, exactly when the error is permanent.
  pub receive_decoded :
      (decoders : List Decoder) (chain : Link S) (queue : Option (Queue Q)) (now : Time)
      (raw : RawEvent) (r : Relay S Q) (env : Envelope)
      → decode_event decoders raw ≡ some env
      → let o = chain request_context env r.world in
        receive decoders chain queue now (some raw) r ≡ (
          if is_retryable? o.err then status_unavailable else status_ok,
          record { world = o.world; dead = dead_after queue now o r.dead },
        )
  unfolding receive
  receive_decoded decoders chain queue now raw r env h = ground (arith, h)
