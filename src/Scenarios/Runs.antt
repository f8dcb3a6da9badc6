-- ===== src/Scenarios/Runs.antt =====
-- The decoders of runs, run.
use tekton_events_relay.Notifier.{all_handlers}
use tekton_events_relay.Pipeline.Dispatcher.{dispatch, is_matched, run_turns}
use tekton_events_relay.Pipeline.Links.Namespaces.{namespace_allowed}
use tekton_events_relay.Prelude.{
  List, ◌||◌, ◌==◌, is_some, arith, none, some, [], ◌∷◌, ◌<>◌, ◌≡◌, refl, lookup, ends_with,
}
use tekton_events_relay.Domain.{Event, zero_event, Envelope, resource_task_run}
use tekton_events_relay.Errors.{
  ok, Err, join, cons, nil, wrap, plain, error_text, is_retryable, join_all,
}
use tekton_events_relay.Tekton.{RunObject, prefix, base_event_from_run}
use tekton_events_relay.Tekton.Runs.{Json, task_run_decoder, task_run_report}
use tekton_events_relay.Tekton.Runs.Validity.{of_task_runs, decoded_run_is_named}
use tekton_events_relay.Pipeline.Links.{invalid, resource_allowed}
use tekton_events_relay.Pipeline.Chain.{Setup, relay_chain}
use tekton_events_relay.Dlq.{DeadEvent}
use tekton_events_relay.Dlq.File.{FileQueue, Disk, file_queue, list, read_lines, upsert}
use tekton_events_relay.Dlq.File.Entries.{entry_of}
use tekton_events_relay.Receiver.{Relay, Decoder, receive, find_decoder}
use tekton_events_relay.Receiver.Preservation.{outcome, failed_event_is_listed}
use tekton_events_relay.Scenarios.{
  raw, Site, setup, broken, codec, fresh, dead, dispatcher, in_order,
}

abbrev object : RunObject
object = record {
  metadata = record {
    name = "build-1";
    namespace = "ci";
    uid = "uid-1";
    annotations = (prefix <> "scm.provider", "github") ∷ [];
    labels = [];
  };
  status = record {
    start_time = none;
    completion_time = none;
    conditions = [];
    pipeline_results = [];
    task_results = [];
    pipeline_spec = none;
    task_spec = none;
    child_references = [];
  };
}

abbrev json : Json
json = record { run = λ field bytes. ok (some object); unquote = λ s. none }

abbrev base : Event
base = record zero_event {
  provider = "github";
  resource = "taskrun";
  state = "success";
  description = "Succeeded";
  run_name = "build-1";
  run_id = "uid-1";
  namespace = "ci";
}

abbrev decoded : Envelope
decoded = record {
  cloud_event_id = "e1";
  cloud_event_type = raw.event_type;
  source = raw.source;
  report = task_run_report json object base;
}

is_decoded : (task_run_decoder json).decode raw ≡ ok decoded
unfolding task_run_decoder base_event_from_run lookup ends_with
is_decoded = refl

decoded_run_is_named_example :
    (decoded.report.state ≡ "success")
    × (decoded.report.resource ≡ resource_task_run)
    × (decoded.cloud_event_id ≡ raw.id)
    × (is_some (invalid decoded) ≡ (raw.id == "" || decoded.report.run_name == ""))
unfolding lookup
decoded_run_is_named_example =
    decoded_run_is_named json resource_task_run (task_run_decoder json) raw decoded "successful"
      "success" of_task_runs is_decoded refl refl

-- A relay whose only handler fails for good, and whose dead letter queue is a file with one entry.
abbrev file : FileQueue DeadEvent
file = record { codec = codec 10; max_bytes = 5000000; retention_days = 7 }

abbrev failing_site : Setup Site
failing_site = setup (broken ∷ [])

abbrev with_file : Relay Site (Disk DeadEvent)
with_file = record { world = fresh; dead = record { lines = some (dead "e0" ∷ []); faults = [] } }

abbrev failure : Err
failure = join (cons (wrap "github/gh3/commit_status: " (plain "404")) nil)

abbrev run_decoders : List Decoder
run_decoders = task_run_decoder json ∷ []

abbrev chained : Envelope
chained = (outcome failing_site file 8 with_file decoded).env

fails : (outcome failing_site file 8 with_file decoded).err ≡ some failure
unfolding relay_chain task_run_report resource_allowed namespace_allowed lookup dispatch
    all_handlers dispatcher join_all run_turns in_order is_matched
fails = refl

failed_event_is_listed_example :
    let (status, after) =
      receive run_decoders
        (relay_chain failing_site)
        (some (file_queue file))
        8
        (some raw)
        with_file in
    (status ≡ 200)
    × ((listed : List DeadEvent) × ((list file 0 after.dead).0 ≡ ok listed)
        × (entry_of "e1" listed
            ≡ some (record {
              id = "e1";
              failed_at = 8;
              cause = error_text failure;
              retry_count = 0;
              envelope = some chained;
            })))
unfolding find_decoder task_run_decoder is_retryable read_lines upsert relay_chain resource_allowed
    namespace_allowed lookup dispatch all_handlers dispatcher join_all run_turns in_order is_matched
failed_event_is_listed_example =
    failed_event_is_listed failing_site file 8 with_file decoded json resource_task_run
      (task_run_decoder json) run_decoders raw failure (dead "e0" ∷ []) "e1" of_task_runs refl
      is_decoded fails refl refl refl refl (omega arith, (omega arith, tt)) (omega arith)
