-- ===== src/Accumulator/Handler.antt =====
-- Handler of internal/accumulator/handler.go: one aggregate comment for a run or a group.
pub mod Posts
pub mod Equivalence
use tekton_events_relay.Prelude.{
  ℕ, String, Bool, true, false, not, ◌&&◌, ◌||◌, Option, none, some, List, [], ◌∷◌, ◌≡◌, refl,
  arith, ◌==◌, is_empty, or_else, is_some, if◌then◌else◌, Option-cases, ap, ◌∙◌, inl, inr,
}
use tekton_events_relay.Domain.{Time, Event, zero_event, resource_task_run, resource_pipeline_run}
use tekton_events_relay.Errors.{Err}
use tekton_events_relay.Notifier.{Context, ActionHandler}
use tekton_events_relay.Accumulator.{RunState, ends_run}
use tekton_events_relay.Accumulator.Buffers.{Buffer}
use tekton_events_relay.Accumulator.Markdown.{generate_markdown, SummaryData, summary_of}

-- The state of the handler and of the provider that it wraps.
pub record Accumulated (B : Type 0) (S : Type 0) : Type 0 where
  pub buffer : B
  pub state : S

-- What the handler is built from; the template, where there is one, may fail.
pub record AccumulatorConfig (B : Type 0) (S : Type 0) : Type 0 where
  pub name : String
  pub buffer : Buffer B
  pub provider : ActionHandler S
  pub template : Option (SummaryData → Option String)
  pub duration_text : Time → Time → String

abbrev pub is_buffered : Event → Bool
is_buffered e = e.resource == resource_task_run || e.resource == resource_pipeline_run

module _ {B S : Type 0} (a : AccumulatorConfig B S) where
  -- renderWithTemplate falls back on the table where the template fails.
  unfoldable pub render : RunState → Event → String
  unfolding summary_of
  render s final = elim a.template [
    | none ↦ generate_markdown a.duration_text s
    | some t ↦
        or_else (t (summary_of a.duration_text s final)) (generate_markdown a.duration_text s)
  ]

  -- The event that flushAndPost and flushGroupAndPost build, at the run's id.
  unfoldable pub aggregate_event : String → RunState → Event → Event
  unfolding render
  aggregate_event run_id s final = record zero_event {
    provider = final.provider;
    resource = resource_pipeline_run;
    run_name = final.run_name;
    run_id = run_id;
    namespace = final.namespace;
    state = final.state;
    context = "tekton/pipeline-summary";
    description = render s final;
    commit_sha = final.commit_sha;
    repo = final.repo;
    pr_number = final.pr_number;
  }

  abbrev pub post :
      Context → String → Event → Option RunState → Accumulated B S → Option Err × Accumulated B S
  post ctx run_id final none w = (none, w)
  post ctx run_id final (some s) w =
      if is_empty s.tasks
      then (none, w)
      else let (err, state) = a.provider.handle ctx (aggregate_event run_id s final) w.state in
        (err, record w { state = state })

  -- flushAndPost
  unfoldable pub flush_and_post :
      Time → Context → String → Event → Accumulated B S → Option Err × Accumulated B S
  flush_and_post now ctx uid final w =
      let (found, b) = a.buffer.flush now uid w.buffer in
      post ctx uid final found (record w { buffer = b })

  -- flushGroupAndPost
  unfoldable pub flush_group_and_post :
      Context → String → Event → Accumulated B S → Option Err × Accumulated B S
  flush_group_and_post ctx group_id final w =
      let (found, b) = a.buffer.flush_group group_id w.buffer in
      post ctx final.run_id final found (record w { buffer = b })

  -- handleSingle
  unfoldable pub handle_single :
      Time → Context → Event → String → Accumulated B S → Option Err × Accumulated B S
  unfolding flush_and_post
  handle_single now ctx e uid w =
      let w' : Accumulated B S =
        if is_buffered e then record w { buffer = a.buffer.add now uid e w.buffer } else w in
      if ends_run e then flush_and_post now ctx uid e w' else (none, w')

  -- handleGrouped
  unfoldable pub handle_grouped :
      Time → Context → Event → String → String → Accumulated B S → Option Err × Accumulated B S
  unfolding flush_group_and_post
  handle_grouped now ctx e group_id uid w =
      let w' : Accumulated B S =
        if is_buffered e
        then record w { buffer = a.buffer.add_with_group now group_id uid e w.buffer }
        else w in
      if ends_run e && a.buffer.is_group_complete group_id w'.buffer
      then flush_group_and_post ctx group_id e w'
      else (none, w')

  -- Handle
  unfoldable pub handle : Time → Context → Event → Accumulated B S → Option Err × Accumulated B S
  unfolding handle_single handle_grouped
  handle now ctx e w =
      if e.run_id == ""
      then (none, w)
      else if not (e.accumulator_group_id == "")
      then handle_grouped now ctx e e.accumulator_group_id e.run_id w
      else handle_single now ctx e e.run_id w
