-- ===== src/Plan/Executor.antt =====
-- The executor of plan runs: src/orchestrator/plan-executor.ts. The script runs between the first and the last
-- writes, while other writes go on, so these are functions of their own, and what runPlan and dryRun
-- answer is an argument. String.includes and JSON.stringify are arguments as well. The columns `meta` and
-- `args` hold JSON that the tracker wrote, so parsing them does not fail. A field that is
-- undefined is written as null.
use nano_symphony.Common.{
  ℕ, ◌+◌, String, Bool, ◌&&◌, Option, none, some, List, [], ◌∷◌, ◌==◌, ltb, if◌then◌else◌, get_or,
  concat,
}
use text.Mathlib.Text.{starts_with}
use Prim.Native.String.{slice, len}
use nano_symphony.Json.{Json, null, whole, bool, str, object, text_or_null}
use nano_symphony.Tracker.Types.{Issue, PlanRun, PlanRunState, Database}
use nano_symphony.Tracker.Events.{get_llm_call_summary}
use nano_symphony.Tracker.Issues.{list_issues_by_plan_run}
use nano_symphony.Tracker.PlanRuns.{
  update_plan_run_state, set_plan_run_dry_run_summary, finish_plan_run, get_plan_run,
}
use nano_symphony.Worker.Env.{Env, log_event}

-- what `runPlan` answers
pub record RunnerResult : Type 0 where
  pub ok : Bool
  pub result : Json
  pub error : Option String
  pub termination_reason : Option String
  pub last_phase : Option String
  pub last_log : Option String
  pub last_log_at : Option ℕ
  pub sub_issues_started : ℕ
  pub sub_issues_done : ℕ
  pub sub_issues_failed : ℕ

-- the functions of the runtime
pub record Runtime : Type 0 where
  pub includes : String → String → Bool
  pub stringify : Json → String

unfoldable pub derive_termination_reason : Runtime → Option String → String
derive_termination_reason rt none = "unknown"
derive_termination_reason rt (some error) =
    if error == ""
    then "unknown"
    else if starts_with error "cancelled_by_user"
    then "cancelled_by_user"
    else if starts_with error "cancelled_transient"
    then "cancelled_transient"
    else if rt.includes error "wall_time_exceeded"
    then "timeout"
    else if rt.includes error "max_issues_exceeded"
    then "budget_exhausted"
    else if rt.includes error "Sub-issue" && rt.includes error "cancelled"
    then "sub_issue_abandoned"
    else "vm_error"

-- the tokens spent by the issues of the list
unfoldable pub tokens_of : List Issue → Database → ℕ
tokens_of [] d = 0
tokens_of (i ∷ is) d =
    let s = get_llm_call_summary i.uuid d in s.input_tokens + s.output_tokens + tokens_of is d

unfoldable pub token_spent : String → Database → ℕ
unfolding tokens_of
token_spent run_id d = tokens_of (list_issues_by_plan_run run_id d) d

-- `resultStr`, where a result that is undefined is null too
unfoldable pub result_text : Runtime → Json → Option String
result_text rt null = none
result_text rt (str s) = some s
result_text rt v = some (rt.stringify v)

abbrev nat_or_null : Option ℕ → Json
nat_or_null none = null
nat_or_null (some n) = whole n

unfoldable pub failure_payload : Runtime → RunnerResult → Json
unfolding derive_termination_reason
failure_payload rt r =
    let log = get_or r.last_log "" in
    let truncated = ltb 1024 (len log) in
    object (
      ("reason", str (get_or r.termination_reason (derive_termination_reason rt r.error)))
      ∷ ("phase", text_or_null r.last_phase)
      ∷ ("last_log", if truncated then str (slice log 0 1024) else text_or_null r.last_log)
      ∷ ("last_log_truncated", bool truncated)
      ∷ ("last_log_at", nat_or_null r.last_log_at)
      ∷ ("error_message", text_or_null r.error)
      ∷ ("sub_issues_started", whole r.sub_issues_started)
      ∷ ("sub_issues_done", whole r.sub_issues_done)
      ∷ ("sub_issues_failed", whole r.sub_issues_failed)
      ∷ [])

-- `if (callerIssueId)`
unfoldable pub note_failure : Env → Runtime → PlanRun → RunnerResult → Database → Database
unfolding failure_payload
note_failure env rt run r d = elim run.caller_issue_uuid [
  | none ↦ d
  | some caller ↦
      if caller == ""
      then d
      else log_event env caller "plan_run_failed"
          (concat ("Plan run " ∷ run.id ∷ " failed: " ∷ get_or r.error "unknown" ∷ []))
          (some (failure_payload rt r)) d
]

-- what executePlan writes once `runPlan` has answered; `run` was read before
unfoldable pub end_plan : Env → Runtime → PlanRun → RunnerResult → Database → Database
unfolding note_failure result_text
end_plan env rt run r d =
    if r.ok
    then finish_plan_run run.id PlanRunState.done (result_text rt r.result) env.now d
    else note_failure env rt run r (finish_plan_run run.id PlanRunState.failed r.error env.now d)

-- what `dryRun` answers, with all of it as JSON
pub record DryRunSummary : Type 0 where
  pub ok : Bool
  pub error : Option String
  pub json : Json

-- executePlanDryRun up to the dry run
unfoldable pub begin_dry_run : String → Database → Database
begin_dry_run run_id d = elim (get_plan_run run_id d) [
  | none ↦ d
  | some run ↦ update_plan_run_state run_id PlanRunState.dry_running d
]

-- and after it
unfoldable pub end_dry_run : Env → String → DryRunSummary → Database → Database
end_dry_run env run_id summary d0 =
    let d = set_plan_run_dry_run_summary run_id summary.json d0 in
    if summary.ok
    then update_plan_run_state run_id PlanRunState.awaiting_approval d
    else finish_plan_run run_id PlanRunState.failed
        (some (concat ("Dry-run failed: " ∷ get_or summary.error "undefined" ∷ []))) env.now d
