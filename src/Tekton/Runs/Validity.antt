-- ===== src/Tekton/Runs/Validity.antt =====
-- How the chain's validator judges what the run decoders decode.
use mathlib.Core.Path.{subst}
use tekton_events_relay.Prelude.{
  Bool-cases, Map, lookup, eq_iff, sym, String, List, [], ◌∷◌, All, is_some, ends_with, ◌||◌, false,
  Option, none, some, ◌≡◌, refl, arith, ◌==◌, ◌<>◌, text_at, if◌then◌else◌, ap, ◌∙◌, inl, inr,
}
use tekton_events_relay.Domain.{
  Event, Envelope, State, Resource, resource_task_run, resource_pipeline_run, resource_custom_run,
}
use tekton_events_relay.Errors.{plain, Result, ok, err}
use tekton_events_relay.Receiver.{RawEvent, Decoder}
use tekton_events_relay.Pipeline.Links.{invalid}
use tekton_events_relay.Tekton.{RunObject, map_state, base_event_from_run, prefix}
use tekton_events_relay.Tekton.Runs.{
  Json, found_run, finish_run, decode_run, task_run_report, pipeline_run_report, custom_run_report,
  task_run_decoder, pipeline_run_decoder, custom_run_decoder, is_type,
}

-- What a report of a run says: its provider is there, its state is the one of the event's type, and
-- its resource is the decoder's.
pub record Reported (resource : Resource) (raw : RawEvent) (env : Envelope) : Type 0 where
  pub of_raw :
      (env.cloud_event_id ≡ raw.id)
      × (env.cloud_event_type ≡ raw.event_type)
      × (env.source ≡ raw.source)
  pub provided : (env.report.provider == "") ≡ false
  pub stated : env.report.state ≡ map_state raw.event_type
  pub of_resource : env.report.resource ≡ resource

-- A report that keeps what baseEventFromRun sets.
record KeepsBase (report : RunObject → Event → Event) : Type 0 where
  provider : (obj : RunObject) (e : Event) → (report obj e).provider ≡ e.provider
  state : (obj : RunObject) (e : Event) → (report obj e).state ≡ e.state
  resource : (obj : RunObject) (e : Event) → (report obj e).resource ≡ e.resource

-- A result is an error, or what it holds is so.
OkOf : {A : Type 0} → (A → Type 0) → Result A → Type 0
OkOf P (ok a) = P a
OkOf P (err e) = Unit {0}

of_ok : {A : Type 0} (P : A → Type 0) (r : Result A) (a : A) → OkOf P r → r ≡ ok a → P a
unfolding OkOf
of_ok P r a h eq = subst (OkOf P) eq h

BaseOf : Resource → String → Event → Type 0
BaseOf resource t e =
    ((e.provider == "") ≡ false) × (e.state ≡ map_state t) × (e.resource ≡ resource)

base_event_from_run-BaseOf :
    (obj : RunObject) (resource : Resource) (t : String)
    → OkOf (BaseOf resource t) (base_event_from_run obj resource t)
unfolding OkOf BaseOf base_event_from_run
base_event_from_run-BaseOf obj resource t =
    elim (Bool-cases (text_at obj.metadata.annotations (prefix <> "scm.provider") == "")) [
      | inl h ↦ rw h tt
      | inr h ↦ rw h (h, refl, refl)
    ]

module _ {report : RunObject → Event → Event} (keeps : KeepsBase report) (resource : Resource)
    (raw : RawEvent) where
  finish_run-Reported :
      (obj : RunObject) (r : Result Event)
      → OkOf (BaseOf resource raw.event_type) r
      → OkOf (Reported resource raw) (finish_run raw (report obj) r)
  unfolding OkOf BaseOf
  finish_run-Reported obj (err x) h = tt
  finish_run-Reported obj (ok e) h = record {
    of_raw = (refl, refl, refl);
    provided = ap (λ p. p == "") (keeps.provider obj e) ∙ h.0;
    stated = keeps.state obj e ∙ h.1;
    of_resource = keeps.resource obj e ∙ h.2;
  }

  found_run-Reported :
      (field : String) (r : Result (Option RunObject))
      → OkOf (Reported resource raw) (found_run raw resource field report r)
  unfolding OkOf
  found_run-Reported field (err x) = tt
  found_run-Reported field (ok none) = tt
  found_run-Reported field (ok (some obj)) =
      finish_run-Reported obj (base_event_from_run obj resource raw.event_type)
        (base_event_from_run-BaseOf obj resource raw.event_type)

  decode_run-Reported :
      (json : Json) (field : String)
      → OkOf (Reported resource raw) (decode_run json resource field report raw)
  unfolding OkOf
  decode_run-Reported json field = elim (Bool-cases (is_type resource raw.event_type)) [
    | inl h ↦ rw h (found_run-Reported field (json.run field raw.payload))
    | inr h ↦ rw h tt
  ]

task_run_report-KeepsBase : (json : Json) → KeepsBase (task_run_report json)
unfolding task_run_report
task_run_report-KeepsBase json = record {
  provider = λ obj e. refl;
  state = λ obj e. refl;
  resource = λ obj e. refl;
}

pipeline_run_report-KeepsBase : (json : Json) → KeepsBase (pipeline_run_report json)
unfolding pipeline_run_report
pipeline_run_report-KeepsBase json = record {
  provider = λ obj e. refl;
  state = λ obj e. refl;
  resource = λ obj e. refl;
}

custom_run_report-KeepsBase : (json : Json) → KeepsBase (custom_run_report json)
unfolding custom_run_report
custom_run_report-KeepsBase json = record {
  provider = λ obj e. refl;
  state = λ obj e. refl;
  resource = λ obj e. refl;
}

-- The decoders of runs, with the resource that each is for.
pub data RunDecoder (json : Json) : Resource → Decoder → Type 0 where
  of_task_runs : RunDecoder json resource_task_run (task_run_decoder json)
  of_pipeline_runs : RunDecoder json resource_pipeline_run (pipeline_run_decoder json)
  of_custom_runs : RunDecoder json resource_custom_run (custom_run_decoder json)

-- What any decoder of runs decodes has the texts of the CloudEvent, the decoder's resource, a
-- provider, and the state that the CloudEvent's type names.
pub decode-Reported :
    (json : Json) (resource : Resource) (d : Decoder) (raw : RawEvent) (env : Envelope)
    → RunDecoder json resource d
    → d.decode raw ≡ ok env
    → Reported resource raw env
unfolding task_run_decoder pipeline_run_decoder custom_run_decoder
decode-Reported json _ _ raw env of_task_runs h =
    of_ok (Reported resource_task_run raw) _ env
      (decode_run-Reported (task_run_report-KeepsBase json) resource_task_run raw json "taskRun") h
decode-Reported json _ _ raw env of_pipeline_runs h =
    of_ok (Reported resource_pipeline_run raw) _ env
      (decode_run-Reported (pipeline_run_report-KeepsBase json) resource_pipeline_run raw json
        "pipelineRun")
      h
decode-Reported json _ _ raw env of_custom_runs h =
    of_ok (Reported resource_custom_run raw) _ env
      (decode_run-Reported (custom_run_report-KeepsBase json) resource_custom_run raw json
        "customRun")
      h

-- The chain's validator refuses what a decoder of runs decodes only where the CloudEvent has no id
-- or the run no name; it never misses the provider.
pub decoded_invalid :
    (json : Json) (resource : Resource) (d : Decoder) (raw : RawEvent) (env : Envelope)
    → RunDecoder json resource d
    → d.decode raw ≡ ok env
    → invalid env ≡ (
        if raw.id == ""
        then some (plain "missing Ce-Id")
        else if env.report.run_name == ""
        then some (plain ("missing RunName for " <> raw.event_type))
        else none)
unfolding invalid
decoded_invalid json resource d raw env is_run h =
    let says = decode-Reported json resource d raw env is_run h in
    rw says.of_raw.0 (rw says.of_raw.1 (rw says.provided (ground arith)))

-- The last part but one of a CloudEvent's type, and the state that it stands for.
abbrev pub named_states : Map State
named_states =
    ("queued", "pending")
    ∷ ("started", "pending")
    ∷ ("running", "running")
    ∷ ("unknown", "running")
    ∷ ("successful", "success")
    ∷ ("failed", "failure")
    ∷ ("cancelled", "canceled")
    ∷ ("error", "error")
    ∷ []

abbrev pub type_of : Resource → String → String
type_of resource name = "dev.tekton.event." <> resource <> "." <> name <> ".v1"

named_by :
    (resource : Resource) (name : String) (state : State) (rows : List (String × State))
    → All (λ row. map_state (type_of resource (row.0)) ≡ row.1) rows
    → lookup name rows ≡ some state
    → map_state (type_of resource name) ≡ state
unfolding lookup
named_by resource name state [] a h = absurd (cc)
named_by resource name state ((n, x) ∷ rows) a h = elim (Bool-cases (n == name)) [
  | inl same ↦
      let found : some x ≡ some state = rw same at h in
      let value : x ≡ state = cc in rw (sym ((eq_iff n name).0 same)) (a.0 ∙ value)
  | inr other ↦ named_by resource name state rows (a.1) (rw other at h)
]

states_of :
    {json : Json} {resource : Resource} {d : Decoder}
    → RunDecoder json resource d
    → All (λ row. map_state (type_of resource (row.0)) ≡ row.1) named_states
unfolding map_state ends_with
states_of of_task_runs = (refl, (refl, (refl, (refl, (refl, (refl, (refl, (refl, tt))))))))
states_of of_pipeline_runs = (refl, (refl, (refl, (refl, (refl, (refl, (refl, (refl, tt))))))))
states_of of_custom_runs = (refl, (refl, (refl, (refl, (refl, (refl, (refl, (refl, tt))))))))

-- What a decoder of runs decodes from a CloudEvent of one of the eight types of its resource has
-- the state that the table gives to that type, the resource of the decoder and the id of the
-- CloudEvent; and the validator of the chain refuses it exactly when that id or the name of the
-- run is empty.
pub decoded_run_is_named :
    (json : Json) (resource : Resource) (d : Decoder) (raw : RawEvent) (env : Envelope)
    (name : String) (state : State)
    → RunDecoder json resource d
    → d.decode raw ≡ ok env
    → lookup name named_states ≡ some state
    → raw.event_type ≡ type_of resource name
    → (env.report.state ≡ state)
      × (env.report.resource ≡ resource)
      × (env.cloud_event_id ≡ raw.id)
      × (is_some (invalid env) ≡ (raw.id == "" || env.report.run_name == ""))
decoded_run_is_named json resource d raw env name state is_run h named typed =
    let says = decode-Reported json resource d raw env is_run h in
    (
      says.stated
          ∙ ap map_state typed
          ∙ named_by resource name state named_states (states_of is_run) named,
      says.of_resource,
      says.of_raw.0,
      ap is_some (decoded_invalid json resource d raw env is_run h) ∙ ground arith,
    )
