-- ===== src/Tekton.antt =====
-- internal/event/tekton: the decoders of run events. This file has what they share, of decoder.go
-- and decoder_shared.go; its children have the decoders.
pub mod Runs
pub mod States
pub mod Listeners
use Prim.Native.String.{String}
use Prim.Native.Char.{code}
use tekton_events_relay.Prelude.{
  ℕ, zero, suc, ◌+◌, ◌-◌, ℤ, Bool, true, false, not, ◌&&◌, ◌||◌, Option, none, some, List, [], ◌∷◌,
  ◌==◌, ◌<>◌, ends_with, atoi, ltb, leb, text_at, Map, or_else, if◌then◌else◌,
}
use tekton_events_relay.Domain.{
  Time, State, Resource, Event, zero_event, RunResult, state_pending, state_running, state_success,
  state_failure, state_canceled, state_error,
}
use tekton_events_relay.Errors.{Err, plain, Result, ok, err}

pub record Condition : Type 0 where
  pub kind : String  -- Type
  pub status : String
  pub reason : String
  pub message : String

-- runResult; the value is raw JSON.
pub record RawResult : Type 0 where
  pub name : String
  pub value : String

pub record RunMeta : Type 0 where
  pub name : String
  pub namespace : String
  pub uid : String
  pub annotations : Map String
  pub labels : Map String

-- runStatus; of a spec only its display name, of the child references their names.
pub record RunStatus : Type 0 where
  pub start_time : Option Time
  pub completion_time : Option Time
  pub conditions : List Condition
  pub pipeline_results : List RawResult
  pub task_results : List RawResult
  pub pipeline_spec : Option String
  pub task_spec : Option String
  pub child_references : List String

pub record RunObject : Type 0 where
  pub metadata : RunMeta
  pub status : RunStatus

abbrev pub prefix : String
prefix = "tekton.dev/tekton-events-relay."

-- MapState
unfoldable pub map_state : String → State
map_state t =
    if ends_with t ".queued.v1" || ends_with t ".started.v1"
    then state_pending
    else if ends_with t ".running.v1" || ends_with t ".unknown.v1"
    then state_running
    else if ends_with t ".successful.v1"
    then state_success
    else if ends_with t ".failed.v1"
    then state_failure
    else if ends_with t ".cancelled.v1"
    then state_canceled
    else if ends_with t ".error.v1"
    then state_error
    else state_pending

-- The bytes of a character in UTF-8.
abbrev pub width : ℕ → ℕ
width c = if ltb c 128 then 1 else if ltb c 2048 then 2 else if ltb c 65536 then 3 else 4

-- len of a Go text
unfoldable pub byte_length : String → ℕ
byte_length String.[] = 0
byte_length (String.◌∷◌ c s) = width (code c) + byte_length s

-- s[:n] of a Go text; the bytes of a character that the cut splits are read as U+FFFD each, as
-- encoding/json and the other readers of a text do.
broken : ℕ → String
broken zero = ""
broken (suc n) = "�" <> broken n

unfoldable pub byte_prefix : ℕ → String → String
unfolding broken
byte_prefix n String.[] = ""
byte_prefix n (String.◌∷◌ c s) =
    let rest = byte_prefix (n - width (code c)) s in
    if leb (width (code c)) n then String.◌∷◌ c rest else broken n

-- The message of the first condition that counts.
unfoldable pub condition_message : List Condition → Option String
condition_message [] = none
condition_message (c ∷ cs) =
    let rest = condition_message cs in
    if c.kind == "Succeeded" && not (c.message == "") then some c.message else rest

abbrev pub shortened : String → String
shortened m = if leb (byte_length m) 140 then m else byte_prefix 137 m <> "..."

abbrev pub default_description : String → String
default_description t =
    if ends_with t ".queued.v1"
    then "Queued"
    else if ends_with t ".started.v1"
    then "Started"
    else if ends_with t ".running.v1"
    then "Running"
    else if ends_with t ".successful.v1"
    then "Succeeded"
    else if ends_with t ".failed.v1"
    then "Failed"
    else if ends_with t ".cancelled.v1"
    then "Canceled"
    else if ends_with t ".error.v1"
    then "Error"
    else ""

abbrev pub described : Option String → String → String
described (some m) t = shortened m
described none t = default_description t

-- descriptionFor
unfoldable pub description_for : RunObject → String → String
unfolding condition_message byte_length byte_prefix
description_for obj t = described (condition_message obj.status.conditions) t

-- baseEventFromRun
unfoldable pub base_event_from_run : RunObject → Resource → String → Result Event
unfolding map_state description_for
base_event_from_run obj resource raw_type =
    let a = obj.metadata.annotations in
    let provider = text_at a (prefix <> "scm.provider") in
    if provider == ""
    then err (
        plain (
          "missing annotation " <> prefix <> "scm.provider on " <> obj.metadata.namespace <> "/"
          <> obj.metadata.name))
    else ok (record zero_event {
      provider = provider;
      resource = resource;
      api_base_url = text_at a (prefix <> "scm.api-base-url");
      commit_sha = text_at a (prefix <> "scm.commit-sha");
      repo = record {
        owner = text_at a (prefix <> "scm.repo-owner");
        name = text_at a (prefix <> "scm.repo-name");
        id = text_at a (prefix <> "scm.repo-id");
        workspace = text_at a (prefix <> "scm.repo-workspace");
        project = text_at a (prefix <> "scm.repo-project");
        org = text_at a (prefix <> "scm.repo-org");
      };
      state = map_state raw_type;
      description = description_for obj raw_type;
      run_name = obj.metadata.name;
      run_id = obj.metadata.uid;
      namespace = obj.metadata.namespace;
      accumulator_group_id = text_at a (prefix <> "accumulator.group-id");
    })

-- optionalInt
unfoldable pub optional_int : Map String → String → Option ℤ
unfolding atoi
optional_int annotations key = let s = text_at annotations key in if s == "" then none else atoi s

-- applyTimestamps
unfoldable pub apply_timestamps : RunObject → Event → Event
apply_timestamps obj e = record e {
  started_at = or_else obj.status.start_time e.started_at;
  finished_at = or_else obj.status.completion_time e.finished_at;
}

-- applyOptionalNumbers
unfoldable pub apply_optional_numbers : Map String → Event → Event
unfolding optional_int
apply_optional_numbers a e = record e {
  issue_number = optional_int a (prefix <> "scm.issue-number");
  pr_number = optional_int a (prefix <> "scm.pr-number");
  discussion_number = optional_int a (prefix <> "scm.discussion-number");
  jira_issue_key = text_at a "tekton.dev/tekton-events-relay.jira.issue-key";
}
