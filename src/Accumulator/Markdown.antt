-- ===== src/Accumulator/Markdown.antt =====
-- The summary that internal/accumulator/handler.go writes where no template is configured.
use Prim.Native.String.{compare}
use text.Mathlib.Text.{is_le}
use tekton_events_relay.Prelude.{
  String, Option, none, some, List, [], ◌∷◌, ◌==◌, ◌<>◌, ◌||◌, Map, lookup, map, nat_eq,
  if◌then◌else◌,
}
use tekton_events_relay.Domain.{
  Time, State, Event, state_success, state_failure, state_error, state_canceled, state_running,
}
use tekton_events_relay.Accumulator.{RunState}

-- stateEmoji
unfoldable pub state_emoji : State → String
state_emoji s =
    if s == state_success
    then "✅"
    else if s == state_failure
    then "❌"
    else if s == state_error
    then "⚠\u{fe0f}"
    else if s == state_canceled
    then "🚫"
    else if s == state_running
    then "🔄"
    else "⏳"

-- formatDuration; `text` is the String method of a duration truncated to seconds.
unfoldable pub format_duration : (Time → Time → String) → Time → Time → String
format_duration text start finish =
    if nat_eq start 0 || nat_eq finish 0 then "N/A" else text start finish

-- sort.Strings, as insertion sort.
insert_sorted : String → List String → List String
insert_sorted s [] = s ∷ []
insert_sorted s (t ∷ ts) =
    let rest = insert_sorted s ts in if is_le (compare s t) then s ∷ t ∷ ts else t ∷ rest

sort_strings : List String → List String
sort_strings [] = []
sort_strings (s ∷ ts) = insert_sorted s (sort_strings ts)

abbrev row : (Time → Time → String) → String → Option Event → String
row text name none = ""
row text name (some e) =
    "| "
    <> name
    <> " | "
    <> state_emoji e.state
    <> " "
    <> e.state
    <> " | "
    <> format_duration text e.started_at e.finished_at
    <> " |\n"

rows : (Time → Time → String) → Map Event → List String → String
rows text tasks [] = ""
rows text tasks (k ∷ ks) = row text k (lookup k tasks) <> rows text tasks ks

-- generateMarkdown
unfoldable pub generate_markdown : (Time → Time → String) → RunState → String
unfolding insert_sorted sort_strings rows state_emoji format_duration
generate_markdown text s =
    "## Pipeline Summary\n\n"
    <> "| Task | Status | Duration |\n"
    <> "|------|--------|----------|\n"
    <> rows text s.tasks (sort_strings (map (λ p. p.0) s.tasks))

pub record TaskSummary : Type 0 where
  pub name : String
  pub state : State
  pub emoji : String
  pub duration : String

pub record SummaryData : Type 0 where
  pub pipeline_name : String
  pub run_name : String
  pub state : State
  pub tasks : List TaskSummary

abbrev pub summary_at :
    (Time → Time → String) → String → Option Event → List TaskSummary → List TaskSummary
summary_at text name none rest = rest
summary_at text name (some e) rest =
    record {
      name = name;
      state = e.state;
      emoji = state_emoji e.state;
      duration = format_duration text e.started_at e.finished_at;
    }
    ∷ rest

unfoldable pub summaries : (Time → Time → String) → Map Event → List String → List TaskSummary
summaries text tasks [] = []
summaries text tasks (k ∷ ks) = summary_at text k (lookup k tasks) (summaries text tasks ks)

-- What renderWithTemplate hands to the template.
unfoldable pub summary_of : (Time → Time → String) → RunState → Event → SummaryData
unfolding insert_sorted sort_strings summaries state_emoji format_duration
summary_of text s final = record {
  pipeline_name = final.pipeline_name;
  run_name = final.run_name;
  state = final.state;
  tasks = summaries text s.tasks (sort_strings (map (λ kv. kv.0) s.tasks));
}
