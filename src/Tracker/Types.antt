-- ===== src/Tracker/Types.antt =====
-- The tables of src/db/schema.sql with the row types of src/db/tracker-types.ts and its siblings. A time
-- is a number of milliseconds; an amount of money is a whole number of a fixed small unit.
use nano_symphony.Common.{ℕ, String, Bool, Option, List, [], ◌∷◌, ◌++◌}
use nano_symphony.Json.{Json}

pub data AgentKind : Type 0 where
  nano claude_code : AgentKind

-- A row of `issues`, as `hydrateIssueRow` reads it; the labels and blockers are tables of their own.
pub record Issue : Type 0 where
  pub id : ℕ
  pub uuid : String
  pub identifier : Option String
  pub title : String
  pub description : Option String
  pub priority : String
  pub state : String
  pub branch : Option String
  pub url : Option String
  pub workspace_path : Option String
  pub agent_kind : Option AgentKind
  pub agent_binary : Option String
  pub agent_role : Option String
  pub require_plan : Option Bool
  pub plan_run_id : Option String
  pub expected_schema : Option String
  pub scratchpad : Option String
  pub last_blocker_fingerprint : Option String
  pub plan_estimates_json : Option Json
  pub plan_actuals_json : Option Json
  pub plan_progress_json : Option Json
  pub cost_budget_usd : Option ℕ
  pub token_budget : Option ℕ
  pub created_at : ℕ
  pub updated_at : ℕ

-- `insertIssue`'s argument
pub record IssueInput : Type 0 where
  pub uuid : String
  pub identifier : Option String
  pub title : String
  pub description : Option String
  pub priority : Option String
  pub state : String
  pub branch : Option String
  pub url : Option String
  pub workspace_path : Option String
  pub agent_kind : Option AgentKind
  pub agent_binary : Option String
  pub agent_role : Option String
  pub require_plan : Option Bool
  pub plan_run_id : Option String
  pub expected_schema : Option String
  pub scratchpad : Option String
  pub plan_estimates_json : Option Json
  pub plan_actuals_json : Option Json
  pub plan_progress_json : Option Json
  pub cost_budget_usd : Option ℕ
  pub token_budget : Option ℕ
  pub labels : List String

-- `updateIssue`'s argument: an identifier that is not given keeps the old one, and so do the labels.
pub record IssuePatch : Type 0 where
  pub identifier : Option (Option String)
  pub title : String
  pub description : Option String
  pub priority : Option String
  pub state : String
  pub branch : Option String
  pub url : Option String
  pub workspace_path : Option String
  pub agent_kind : Option AgentKind
  pub agent_binary : Option String
  pub agent_role : Option String
  pub require_plan : Option Bool
  pub plan_run_id : Option String
  pub expected_schema : Option String
  pub scratchpad : Option String
  pub plan_estimates_json : Option Json
  pub plan_actuals_json : Option Json
  pub plan_progress_json : Option Json
  pub cost_budget_usd : Option ℕ
  pub token_budget : Option ℕ
  pub updated_at : Option ℕ
  pub labels : Option (List String)

-- A row of `issue_labels`.
pub record Label : Type 0 where
  pub issue_uuid : String
  pub label : String

-- A row of `issue_blockers`.
pub record Blocker : Type 0 where
  pub issue_uuid : String
  pub blocker_uuid : String
  pub blocker_state : String

-- A row of `symphony_runs`; `workspace_path` is empty until a worker has resolved it. The columns last_event,
-- last_event_ts, last_error and last_patch, which no code writes, are left out.
pub record Run : Type 0 where
  pub issue_uuid : String
  pub next_attempt : ℕ
  pub current_attempt : Option ℕ
  pub last_state : String
  pub last_issue_state : String
  pub workspace_path : String
  pub workspace_managed : Bool
  pub next_due_ts : Option ℕ
  pub agent_pid : Option ℕ
  pub token_input : ℕ
  pub token_output : ℕ
  pub token_total : ℕ
  pub heartbeat_at : Option ℕ
  pub heartbeat_timeout_ms : ℕ

-- A row of `symphony_events`.
pub record Event : Type 0 where
  pub id : String
  pub issue_uuid : String
  pub ts : ℕ
  pub kind : String
  pub message : String
  pub payload_json : Option Json

-- A row of `llm_calls`.
pub record LlmCall : Type 0 where
  pub id : String
  pub issue_uuid : String
  pub attempt : ℕ
  pub provider : Option String
  pub model : Option String
  pub input_tokens : ℕ
  pub output_tokens : ℕ
  pub cost_usd : Option ℕ
  pub duration_ms : Option ℕ
  pub duration_api_ms : Option ℕ
  pub created_at : ℕ

-- A row of `issue_results`.
pub record IssueResult : Type 0 where
  pub issue_uuid : String
  pub attempt : ℕ
  pub version : ℕ
  pub payload : Json
  pub validated : Bool
  pub created_at : ℕ

pub data PlanRunState : Type 0 where
  pending dry_running awaiting_approval running done failed cancelled : PlanRunState

pub data PlanRunApprovalStatus : Type 0 where
  pending approved rejected : PlanRunApprovalStatus

-- A row of `plan_runs`.
pub record PlanRun : Type 0 where
  pub id : String
  pub caller_issue_uuid : Option String
  pub script : String
  pub meta : Json
  pub args : Option Json
  pub state : PlanRunState
  pub dry_run_summary : Option Json
  pub approval_status : Option PlanRunApprovalStatus
  pub approval_reason : Option String
  pub approved_at : Option ℕ
  pub approved_by : Option String
  pub result : Option String
  pub wall_time_ms : ℕ
  pub started_at : Option ℕ
  pub created_at : ℕ
  pub finished_at : Option ℕ

-- A row of `issue_comments`.
pub record Comment : Type 0 where
  pub id : String
  pub issue_uuid : String
  pub ts : ℕ
  pub author : String
  pub body : String
  pub metadata : Option Json

pub data ArtifactSource : Type 0 where
  git_diff mcp : ArtifactSource

-- A row of `symphony_artifacts`.
pub record Artifact : Type 0 where
  pub id : String
  pub issue_uuid : String
  pub attempt : ℕ
  pub source : ArtifactSource
  pub kind : String
  pub label : Option String
  pub path : Option String
  pub content : Option String
  pub metadata_json : Option Json
  pub storage_path : Option String
  pub content_size : ℕ
  pub mime_type : String
  pub ts : ℕ

-- A row of `issue_metrics`.
pub record IssueMetrics : Type 0 where
  pub issue_uuid : String
  pub final_state : String
  pub attempts : ℕ
  pub sessions : ℕ
  pub cost_usd : ℕ
  pub input_tokens : ℕ
  pub output_tokens : ℕ
  pub duration_ms : ℕ
  pub blocked : Bool
  pub recorded_at : ℕ

-- What the operations emit on the bus for the listeners.
pub data BusMessage : Type 0 where
  run : Json → BusMessage
  event : Event → BusMessage

pub record Database : Type 0 where
  pub issues : List Issue
  pub labels : List Label
  pub blockers : List Blocker
  pub runs : List Run
  pub events : List Event
  pub llm_calls : List LlmCall
  pub results : List IssueResult
  pub plan_runs : List PlanRun
  pub comments : List Comment
  pub artifacts : List Artifact
  pub metrics : List IssueMetrics
  pub bus : List BusMessage

abbrev pub issue_key : Issue → String
issue_key i = i.uuid

abbrev pub run_key : Run → String
run_key r = r.issue_uuid

abbrev pub plan_run_key : PlanRun → String
plan_run_key r = r.id

abbrev pub emit : BusMessage → Database → Database
emit m d = record d { bus = d.bus ++ m ∷ [] }
