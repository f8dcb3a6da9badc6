-- ===== src/Tekton/Runs.antt =====
-- The decoders of taskrun_decoder.go, pipelinerun_decoder.go and customrun_decoder.go.
pub mod Validity
use tekton_events_relay.Prelude.{
  ℕ, ◌+◌, String, Bool, true, false, not, ◌&&◌, Option, none, some, List, [], ◌∷◌, ◌==◌, ◌<>◌,
  ends_with, starts_with, text_at, Map, or_else, map, if◌then◌else◌, length,
}
use tekton_events_relay.Domain.{
  Event, Envelope, RunResult, Resource, resource_task_run, resource_pipeline_run,
  resource_custom_run,
}
use tekton_events_relay.Errors.{Err, plain, wrap, Result, ok, err}
use tekton_events_relay.Receiver.{RawEvent, Decoder}
use tekton_events_relay.Tekton.{
  RunObject, RawResult, prefix, base_event_from_run, apply_timestamps, apply_optional_numbers,
}

-- What encoding/json reads: the run object under the payload's field of a name, if it is there, and
-- the text that a JSON text stands for.
pub record Json : Type 0 where
  pub run : String → List ℕ → Result (Option RunObject)
  pub unquote : String → Option String

-- rawMessageToString
unfoldable pub raw_message_to_string : Json → String → String
raw_message_to_string json raw =
    if raw == ""
    then ""
    else if starts_with raw "\"" && ends_with raw "\""
    then or_else (json.unquote raw) raw
    else raw

abbrev pub results_of : Json → List RawResult → List RunResult
results_of json rs =
    map (λ r. record { name = r.name; value = raw_message_to_string json r.value }) rs

abbrev pub label : RunObject → String → String
label obj key = text_at obj.metadata.labels key

-- The first name that is not empty, or the last resort.
abbrev pub first_named : List String → String → String
first_named [] last = last
first_named (n ∷ ns) last =
    let rest = first_named ns last in if not (n == "") then "tekton/" <> n else rest

-- The annotation goes first.
abbrev pub context_of : RunObject → List String → String → String
context_of obj names last =
    let anno = text_at obj.metadata.annotations (prefix <> "scm.context") in
    if not (anno == "") then anno else first_named names last

-- contextOfTaskRun
unfoldable pub context_of_task_run : RunObject → String → String → String → String
context_of_task_run obj display pipeline_task task =
    context_of obj (display ∷ pipeline_task ∷ task ∷ []) ("tekton/task/" <> obj.metadata.name)

-- contextOfPipelineRun
unfoldable pub context_of_pipeline_run : RunObject → String → String → String
context_of_pipeline_run obj display pipeline =
    context_of obj (display ∷ pipeline ∷ []) ("tekton/" <> obj.metadata.name)

-- contextOfCustomRun
unfoldable pub context_of_custom_run : RunObject → String
context_of_custom_run obj = context_of obj [] ("tekton/customrun/" <> obj.metadata.name)

-- The report of a TaskRun after baseEventFromRun; a nil map of labels reads as the empty one.
unfoldable pub task_run_report : Json → RunObject → Event → Event
unfolding context_of_task_run raw_message_to_string apply_timestamps apply_optional_numbers
task_run_report json obj e =
    let display = or_else obj.status.task_spec "" in
    let named : Event = record e {
      task_name = label obj "tekton.dev/task";
      pipeline_name = label obj "tekton.dev/pipeline";
      pipeline_task_name = label obj "tekton.dev/pipelineTask";
      trigger_name = label obj "triggers.tekton.dev/trigger";
      is_finally_task = label obj "tekton.dev/memberOf" == "finally";
      task_display_name = display;
      context =
          context_of_task_run obj display (label obj "tekton.dev/pipelineTask")
            (label obj "tekton.dev/task");
    } in
    record (apply_timestamps obj (apply_optional_numbers obj.metadata.annotations named)) {
      results = results_of json obj.status.task_results;
    }

-- The report of a PipelineRun.
unfoldable pub pipeline_run_report : Json → RunObject → Event → Event
unfolding context_of_pipeline_run raw_message_to_string apply_timestamps apply_optional_numbers
pipeline_run_report json obj e =
    let display = or_else obj.status.pipeline_spec "" in
    let named : Event = record e {
      pipeline_name = label obj "tekton.dev/pipeline";
      trigger_name = label obj "triggers.tekton.dev/trigger";
      pipeline_display_name = display;
      context = context_of_pipeline_run obj display (label obj "tekton.dev/pipeline");
    } in
    record (apply_timestamps obj (apply_optional_numbers obj.metadata.annotations named)) {
      results = results_of json obj.status.pipeline_results;
      task_count = length obj.status.child_references;
    }

-- The report of a CustomRun.
unfoldable pub custom_run_report : Json → RunObject → Event → Event
unfolding context_of_custom_run apply_timestamps apply_optional_numbers
custom_run_report json obj e =
    let named : Event = record e {
      context = context_of_custom_run obj;
      task_name = label obj "tekton.dev/task";
      pipeline_name = label obj "tekton.dev/pipeline";
    } in
    apply_timestamps obj (apply_optional_numbers obj.metadata.annotations named)

abbrev pub envelope_of : RawEvent → Event → Envelope
envelope_of raw e = record {
  cloud_event_id = raw.id;
  cloud_event_type = raw.event_type;
  source = raw.source;
  report = e;
}

abbrev pub finish_run : RawEvent → (Event → Event) → Result Event → Result Envelope
finish_run raw report (err x) = err x
finish_run raw report (ok e) = ok (envelope_of raw (report e))

abbrev pub found_run :
    RawEvent
    → Resource
    → String
    → (RunObject → Event → Event)
    → Result (Option RunObject)
    → Result Envelope
found_run raw resource field report (err x) = err (wrap "unmarshal payload: " x)
found_run raw resource field report (ok none) = err (plain ("payload has no " <> field))
found_run raw resource field report (ok (some obj)) =
    finish_run raw (report obj) (base_event_from_run obj resource raw.event_type)

-- CanHandle of the three decoders, and of the decoder of event listeners.
abbrev pub is_type : String → String → Bool
is_type kind t = starts_with t ("dev.tekton.event." <> kind <> ".")

-- The Decode that the three decoders share but for the resource, the field and the report.
abbrev pub decode_run :
    Json → String → String → (RunObject → Event → Event) → RawEvent → Result Envelope
decode_run json resource field report raw =
    if is_type resource raw.event_type
    then found_run raw resource field report (json.run field raw.payload)
    else err (plain ("not a " <> resource <> " event: " <> raw.event_type))

-- TaskRunDecoder
unfoldable pub task_run_decoder : Json → Decoder
unfolding base_event_from_run task_run_report
task_run_decoder json = record {
  name = "tekton-taskrun";
  can_handle = is_type "taskrun";
  decode = decode_run json resource_task_run "taskRun" (task_run_report json);
}

-- PipelineRunDecoder
unfoldable pub pipeline_run_decoder : Json → Decoder
unfolding base_event_from_run pipeline_run_report
pipeline_run_decoder json = record {
  name = "tekton-pipelinerun";
  can_handle = is_type "pipelinerun";
  decode = decode_run json resource_pipeline_run "pipelineRun" (pipeline_run_report json);
}

-- CustomRunDecoder
unfoldable pub custom_run_decoder : Json → Decoder
unfolding base_event_from_run custom_run_report
custom_run_decoder json = record {
  name = "tekton-customrun";
  can_handle = is_type "customrun";
  decode = decode_run json resource_custom_run "customRun" (custom_run_report json);
}
