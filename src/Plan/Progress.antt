-- ===== src/Plan/Progress.antt =====
-- The progress of the callers of plan runs: src/orchestrator/plan-progress.ts. The percentage is computed in
-- doubles and rounded, so the function from the closed and all issues is an argument.
pub mod Laws
pub mod Parent
use nano_symphony.Common.{
  ℕ, ◌+◌, String, Bool, ◌&&◌, not, none, some, List, [], ◌∷◌, ◌==◌, ltb, if◌then◌else◌, one_of,
  length, keep, all, concat,
}
use nano_symphony.Json.{Json, whole, str, object}
use nano_symphony.Tracker.Types.{Issue, PlanRun, PlanRunState, Database}
use nano_symphony.Tracker.Issues.{
  get_issue, update_issue_state, update_issue_plan_progress, list_issues_by_plan_run,
}
use nano_symphony.Tracker.Runs.{update_last_issue_state}
use nano_symphony.Tracker.PlanRuns.{list_plan_runs_needing_progress_sync, state_text}
use nano_symphony.Worker.Env.{Env, log_event}

pub record PlanProgress : Type 0 where
  pub plan_run_id : String
  pub total : ℕ
  pub done : ℕ
  pub cancelled : ℕ
  pub blocked : ℕ
  pub in_progress : ℕ
  pub percent : ℕ
  pub updated_at : ℕ

abbrev pub terminal_states : List String
terminal_states = "done" ∷ "cancelled" ∷ "blocked" ∷ []

abbrev pub active_states : List String
active_states = "todo" ∷ "planning" ∷ "plan_review" ∷ "in_progress" ∷ "in_review" ∷ "backlog" ∷ []

abbrev pub count_state : String → List Issue → ℕ
count_state s is = length (keep (λ i. i.state == s) is)

-- `total > 0 ? Math.round(...) : 0`
abbrev percent_or_zero : (ℕ → ℕ → ℕ) → ℕ → ℕ → ℕ
percent_or_zero percent_of closed total = if ltb 0 total then percent_of closed total else 0

unfoldable pub progress_of : (ℕ → ℕ → ℕ) → ℕ → PlanRun → List Issue → PlanProgress
progress_of percent_of now run subs =
    let done = count_state "done" subs in
    let cancelled = count_state "cancelled" subs in
    let blocked = count_state "blocked" subs in
    record {
      plan_run_id = run.id;
      total = length subs;
      done = done;
      cancelled = cancelled;
      blocked = blocked;
      in_progress = length (keep (λ i. one_of i.state active_states) subs);
      percent = percent_or_zero percent_of (done + cancelled + blocked) (length subs);
      updated_at = now;
    }

unfoldable pub progress_json : PlanProgress → Json
progress_json p = object (
    ("plan_run_id", str p.plan_run_id)
    ∷ ("total", whole p.total)
    ∷ ("done", whole p.done)
    ∷ ("cancelled", whole p.cancelled)
    ∷ ("blocked", whole p.blocked)
    ∷ ("in_progress", whole p.in_progress)
    ∷ ("percent", whole p.percent)
    ∷ ("updated_at", whole p.updated_at)
    ∷ [])

abbrev pub run_terminal : PlanRun → Bool
run_terminal run = one_of (state_text run.state) ("done" ∷ "failed" ∷ "cancelled" ∷ [])

abbrev pub all_sub_terminal : List Issue → Bool
all_sub_terminal subs = ltb 0 (length subs) && all (λ i. one_of i.state terminal_states) subs

abbrev pub parent_state : PlanRun → ℕ → String
parent_state run done = if state_text run.state == "done" && ltb 0 done then "done" else "cancelled"

-- The parent is moved, and told why.
unfoldable pub complete_parent : Env → PlanRun → String → PlanProgress → Database → Database
unfolding progress_json
complete_parent env run uuid progress d =
    let next_state = parent_state run progress.done in
    log_event env uuid "parent_plan_run_completed"
      (concat (
        "Plan run " ∷ run.id ∷ " " ∷ state_text run.state ∷ "; parent moved to " ∷ next_state ∷ []))
      (some (
        object (
          ("plan_run_id", str run.id)
          ∷ ("plan_run_state", str (state_text run.state))
          ∷ ("next_state", str next_state)
          ∷ ("progress", progress_json progress)
          ∷ [])))
      (update_last_issue_state uuid next_state (update_issue_state env.now uuid next_state d))

unfoldable pub sync_parent : (ℕ → ℕ → ℕ) → Env → PlanRun → Issue → Database → Database
unfolding progress_of complete_parent
sync_parent percent_of env run parent d0 =
    let subs = list_issues_by_plan_run run.id d0 in
    let progress = progress_of percent_of env.now run subs in
    let d = update_issue_plan_progress env.now parent.uuid (progress_json progress) d0 in
    if (run_terminal run && all_sub_terminal subs) && not (one_of parent.state terminal_states)
    then complete_parent env run parent.uuid progress d
    else d

unfoldable pub sync_run : (ℕ → ℕ → ℕ) → Env → PlanRun → Database → Database
unfolding sync_parent
sync_run percent_of env run d = elim run.caller_issue_uuid [
  | none ↦ d
  | some caller ↦ if caller == "" then d else elim (get_issue caller d) [
    | none ↦ d
    | some parent ↦ sync_parent percent_of env run parent d
  ]
]

unfoldable pub sync_runs : (ℕ → ℕ → ℕ) → Env → List PlanRun → Database → Database
unfolding sync_run
sync_runs percent_of env [] d = d
sync_runs percent_of env (r ∷ rs) d = sync_runs percent_of env rs (sync_run percent_of env r d)

unfoldable pub sync_parent_plan_run_progress : (ℕ → ℕ → ℕ) → Env → Database → Database
unfolding sync_runs
sync_parent_plan_run_progress percent_of env d =
    sync_runs percent_of env (list_plan_runs_needing_progress_sync d) d
