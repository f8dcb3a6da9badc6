-- ===== src/Domain.antt =====
-- internal/domain/status.go and the data types of internal/event/event.go: the neutral event that
-- the decoders build and the notifiers read, and the envelope that carries it through the chain.
use tekton_events_relay.Prelude.{ℕ, ℤ, String, Bool, ◌||◌, false, Option, none, List, [], ◌==◌}

-- A state is a text in the source: a replayed event may carry any.
abbrev pub State : Type 0
State = String

abbrev pub state_pending : State
state_pending = "pending"

abbrev pub state_running : State
state_running = "running"

abbrev pub state_success : State
state_success = "success"

abbrev pub state_failure : State
state_failure = "failure"

abbrev pub state_error : State
state_error = "error"

abbrev pub state_canceled : State
state_canceled = "canceled"

abbrev pub state_done : State
state_done = "done"

abbrev pub Resource : Type 0
Resource = String

abbrev pub resource_task_run : Resource
resource_task_run = "taskrun"

abbrev pub resource_pipeline_run : Resource
resource_pipeline_run = "pipelinerun"

abbrev pub resource_custom_run : Resource
resource_custom_run = "customrun"

abbrev pub resource_event_listener : Resource
resource_event_listener = "eventlistener"

pub record Repo : Type 0 where
  pub owner : String
  pub name : String
  pub id : String
  pub workspace : String
  pub project : String
  pub org : String

-- `Result` of the source: a named value that a run produced.
pub record RunResult : Type 0 where
  pub name : String
  pub value : String

-- Nanoseconds since the zero time of package time, at which `IsZero` holds.
abbrev pub Time : Type 0
Time = ℕ

pub record Event : Type 0 where
  pub provider : String
  pub resource : Resource
  pub api_base_url : String
  pub run_name : String
  pub run_id : String
  pub namespace : String
  pub task_name : String
  pub pipeline_name : String
  pub pipeline_task_name : String
  pub event_listener_name : String
  pub trigger_name : String
  pub task_display_name : String
  pub pipeline_display_name : String
  pub is_finally_task : Bool
  pub scm_event_type : String
  pub task_count : ℕ
  pub state : State
  pub context : String
  pub description : String
  pub target_url : String
  pub commit_sha : String
  pub repo : Repo
  pub issue_number : Option ℤ
  pub pr_number : Option ℤ
  pub discussion_number : Option ℤ
  pub jira_issue_key : String
  pub accumulator_group_id : String
  pub results : List RunResult
  pub started_at : Time
  pub finished_at : Time

abbrev pub zero_repo : Repo
zero_repo = record { owner = ""; name = ""; id = ""; workspace = ""; project = ""; org = "" }

-- `domain.Event{}`
abbrev pub zero_event : Event
zero_event = record {
  provider = "";
  resource = "";
  api_base_url = "";
  run_name = "";
  run_id = "";
  namespace = "";
  task_name = "";
  pipeline_name = "";
  pipeline_task_name = "";
  event_listener_name = "";
  trigger_name = "";
  task_display_name = "";
  pipeline_display_name = "";
  is_finally_task = false;
  scm_event_type = "";
  task_count = 0;
  state = "";
  context = "";
  description = "";
  target_url = "";
  commit_sha = "";
  repo = zero_repo;
  issue_number = none;
  pr_number = none;
  discussion_number = none;
  jira_issue_key = "";
  accumulator_group_id = "";
  results = [];
  started_at = 0;
  finished_at = 0;
}

pub record Envelope : Type 0 where
  pub cloud_event_id : String
  pub cloud_event_type : String
  pub source : String
  pub report : Event

-- isTerminalState of internal/accumulator/handler.go
unfoldable pub is_terminal_state : State → Bool
is_terminal_state s =
    s == state_success || s == state_failure || s == state_canceled || s == state_error
