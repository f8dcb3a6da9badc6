-- ===== src/Receiver/Preservation.antt =====
-- From a CloudEvent of a run to the dead letter file: what an operator finds there after a chain that
-- failed for good.
use tekton_events_relay.Prelude.{
  ◌≤◌, String, false, some, List, map, ◌≡◌, refl, ◌∙◌, ap, ◌==◌, if◌then◌else◌,
}
use tekton_events_relay.Domain.{Time, Envelope, Resource}
use tekton_events_relay.Errors.{Err, ok, is_retryable, error_text}
use tekton_events_relay.Pipeline.{Outcome}
use tekton_events_relay.Pipeline.Chain.{Setup, relay_chain}
use tekton_events_relay.Pipeline.Chain.Laws.{relay_chain-id}
use tekton_events_relay.Dlq.{DeadEvent}
use tekton_events_relay.Dlq.File.{
  FileQueue, Disk, file_queue, enqueue, list, upsert, new_entry, bytes, next_faults, later_faults,
  no_faults,
}
use tekton_events_relay.Dlq.File.Entries.{entry_of, bumped, entry_of-upsert}
use tekton_events_relay.Dlq.File.View.{AllShort, Holds, list-enqueue}
use tekton_events_relay.Receiver.{
  RawEvent, Decoder, Relay, find_decoder, decode_event, receive, request_context,
}
use tekton_events_relay.Receiver.Replies.{receive_decoded}
use tekton_events_relay.Tekton.Runs.{Json}
use tekton_events_relay.Tekton.Runs.Validity.{RunDecoder, decode-Reported}

decoded_by :
    {env : Envelope} (decoders : List Decoder) (raw : RawEvent) (d : Decoder)
    → find_decoder raw.event_type decoders ≡ some d
    → d.decode raw ≡ ok env
    → decode_event decoders raw ≡ some env
unfolding decode_event
decoded_by decoders raw d finds decodes = rw (finds, decodes) refl

module _ {S Line : Type 0} (c : Setup S) (q : FileQueue Line) (now : Time) (r : Relay S (Disk Line))
    (env : Envelope) where
  -- The chain's outcome on the envelope, and the entries once it is put in.
  abbrev pub outcome : Outcome S
  outcome = relay_chain c request_context env r.world

  abbrev pub with_event : Err → List DeadEvent → List DeadEvent
  with_event e = upsert (new_entry now outcome.env e)

  received :
      (decoders : List Decoder) (raw : RawEvent) (e : Err)
      → decode_event decoders raw ≡ some env
      → outcome.err ≡ some e
      → is_retryable e ≡ false
      → receive decoders (relay_chain c) (some (file_queue q)) now (some raw) r
        ≡ (200, record { world = outcome.world; dead = (enqueue q now outcome.env e r.dead).1 })
  unfolding file_queue
  received decoders raw e decodes fails permanent =
      receive_decoded decoders (relay_chain c) (some (file_queue q)) now raw r env decodes
      ∙ rw (fails, permanent) refl

  -- A CloudEvent of a run that decodes, and on which the chain fails for good, is answered 200,
  -- and List on the dead letter file then returns entries of which the one under its id has the
  -- time, the text of the error, the envelope as the chain left it, and one retry more than an
  -- entry of that id had before; under any other id stands what stood there. Conditions: the file
  -- can be read and written, every line fits the scanner, and all entries fit the bound.
  pub failed_event_is_listed :
      (json : Json) (resource : Resource) (d : Decoder) (decoders : List Decoder) (raw : RawEvent)
      (e : Err) (es : List DeadEvent) (id : String)
      → RunDecoder json resource d
      → find_decoder raw.event_type decoders ≡ some d
      → d.decode raw ≡ ok env
      → outcome.err ≡ some e
      → is_retryable e ≡ false
      → Holds q r.dead es
      → next_faults r.dead.faults ≡ no_faults
      → next_faults (later_faults r.dead.faults) ≡ no_faults
      → AllShort q.codec (with_event e es)
      → bytes q.codec (map q.codec.marshal (with_event e es)) ≤ q.max_bytes
      → let (status, after) =
          receive decoders (relay_chain c) (some (file_queue q)) now (some raw) r in
        (status ≡ 200)
        × ((listed : List DeadEvent) × ((list q 0 after.dead).0 ≡ ok listed)
            × (entry_of id listed ≡ (
                if raw.id == id
                then some (
                    bumped
                      (record {
                        id = raw.id;
                        failed_at = now;
                        cause = error_text e;
                        retry_count = 0;
                        envelope = some outcome.env;
                      })
                      (entry_of raw.id es))
                else entry_of id es)))
  failed_event_is_listed json resource d decoders raw e es id is_run finds decodes fails permanent h
        f g short fits =
      let says = decode-Reported json resource d raw env is_run decodes in
      let same : outcome.env.cloud_event_id ≡ raw.id =
        relay_chain-id c request_context env r.world ∙ says.of_raw.0 in
      let entry : DeadEvent = record {
        id = raw.id;
        failed_at = now;
        cause = error_text e;
        retry_count = 0;
        envelope = some outcome.env;
      } in
      let named : new_entry now outcome.env e ≡ entry = rw same refl in
      let decoded : decode_event decoders raw ≡ some env =
        decoded_by decoders raw d finds decodes in
      rw (received decoders raw e decoded fails permanent) (
        refl,
        (
          with_event e es,
          list-enqueue q now outcome.env e r.dead es h f g short fits,
          ap (λ x. entry_of id (upsert x es)) named ∙ entry_of-upsert id entry es,
        ),
      )
