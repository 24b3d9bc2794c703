-- ===== src/Tests/Samples.antt =====
-- Rows and settings that the tests share.
use nano_symphony.Common.{
  show_nat, ℕ, ◌*◌, ◌/◌, String, true, false, none, some, List, [], ◌∷◌, concat,
}
use nano_symphony.Json.{object}
use nano_symphony.Tracker.Types.{Issue, Run, PlanRun, PlanRunState, Database}
use nano_symphony.Backoff.{Doubles}
use nano_symphony.Worker.Env.{Env}
use nano_symphony.Worker.Override.{Report}
use nano_symphony.Worker.Settle.{Policy, default_transitions}
use nano_symphony.Worker.Completion.{Payload, SpawnResult}
use nano_symphony.Worker.Attempt.{Outcome}
use nano_symphony.Workspace.{Paths}
use nano_symphony.Orchestrator.Dispatch.{Scheduler}

-- quarters, of which doubles are the halves
abbrev pub quarters : Doubles
quarters = record { unit = 4; round = λ n. n / 2 * 2 }

abbrev pub sample_env : Env
sample_env = record {
  now = 1000;
  fresh_id = show_nat;
  doubles = quarters;
  random = 0;
  show_usd = show_nat;
}

-- an issue in a state, with a priority
abbrev pub issue_of : String → String → String → Issue
issue_of uuid state priority = record {
  id = 1;
  uuid = uuid;
  identifier = some uuid;
  title = "title";
  description = none;
  priority = priority;
  state = state;
  branch = none;
  url = none;
  workspace_path = none;
  agent_kind = none;
  agent_binary = none;
  agent_role = none;
  require_plan = none;
  plan_run_id = none;
  expected_schema = none;
  scratchpad = none;
  last_blocker_fingerprint = none;
  plan_estimates_json = none;
  plan_actuals_json = none;
  plan_progress_json = none;
  cost_budget_usd = none;
  token_budget = none;
  created_at = 10;
  updated_at = 10;
}

-- a run in a state, left with the issue in a state
abbrev pub run_of : String → String → String → Run
run_of uuid state issue_state = record {
  issue_uuid = uuid;
  next_attempt = 0;
  current_attempt = some 0;
  last_state = state;
  last_issue_state = issue_state;
  workspace_path = "";
  workspace_managed = true;
  next_due_ts = none;
  agent_pid = none;
  token_input = 0;
  token_output = 0;
  token_total = 0;
  heartbeat_at = some 5;
  heartbeat_timeout_ms = 120000;
}

abbrev pub tables : List Issue → List Run → Database
tables issues runs = record {
  issues = issues;
  labels = [];
  blockers = [];
  runs = runs;
  events = [];
  llm_calls = [];
  results = [];
  plan_runs = [];
  comments = [];
  artifacts = [];
  metrics = [];
  bus = [];
}

-- one issue that is worked on
abbrev pub busy : Database
busy = tables (issue_of "a" "todo" "high" ∷ []) (run_of "a" "claimed" "" ∷ [])

abbrev pub sample_policy : Policy
sample_policy = record {
  transitions = default_transitions;
  base_delay_ms = 5000;
  max_delay_ms = 300000;
  max_retries = 3;
  breaker_threshold = 5;
}

abbrev pub report : String → Report
report semantics = record { semantics = semantics; summary = none; fingerprint = none }

abbrev pub sample_payload : Payload
sample_payload = record {
  status = "success";
  reason = none;
  last_reason = none;
  tokens_input = some 30;
  tokens_output = some 20;
  cost_usd = none;
  goal_state = none;
  sandbox = none;
  blocked_commands_sample = [];
}

abbrev pub exited : ℕ → SpawnResult
exited code = record {
  exit_code = some code;
  killed_by_timeout = false;
  agent_result = some sample_payload;
}

abbrev pub succeeded : Outcome
succeeded = record { spawned = some (exited 0); payload = some sample_payload; counted = (0, 0) }

-- the agent ended without a payload
abbrev pub silent : Outcome
silent = record { spawned = some (exited 0); payload = none; counted = (0, 0) }

abbrev pub same_text : String → String
same_text s = s

abbrev pub sample_paths : Paths
sample_paths = record {
  trim = same_text;
  homedir = "/home";
  join = λ a b. concat (a ∷ "/" ∷ b ∷ []);
  is_absolute = λ s. true;
  resolve = same_text;
  resolve_in = λ a b. concat (a ∷ "/" ∷ b ∷ []);
  workspace_root = "/work";
}

abbrev pub sample_scheduler : Scheduler
sample_scheduler = record {
  env = sample_env;
  paths = sample_paths;
  root = none;
  heartbeat_timeout_ms = 120;
  cancel_agent = λ u. true;
}

abbrev pub finished_plan : PlanRun
finished_plan = record {
  id = "p";
  caller_issue_uuid = some "a";
  script = "";
  meta = object [];
  args = none;
  state = PlanRunState.done;
  dry_run_summary = none;
  approval_status = none;
  approval_reason = none;
  approved_at = none;
  approved_by = none;
  result = some "ok";
  wall_time_ms = 1000;
  started_at = some 1;
  created_at = 1;
  finished_at = some 2;
}
