-- ===== src/Tests/Reviewing.antt =====
-- The life of a plan run from its creation on, and the progress of a caller, at concrete tables.
use mathlib.Core.Option
use nano_symphony.Common.{
  ℕ, ◌*◌, ◌/◌, ◌≡◌, ◌⊎◌, refl, true, none, some, [], ◌∷◌, ◌==◌, All, find_row, insert_by, sort_by,
}
use nano_symphony.Json.{null, object}
use nano_symphony.Tracker.Types.{Issue, PlanRun, PlanRunState, Database}
use nano_symphony.Tracker.Issues.{get_issue, list_issues_by_plan_run}
use nano_symphony.Tracker.PlanRuns.{PlanRunInput, get_plan_run}
use nano_symphony.Worker.Settle.Guards.{issue_state}
use nano_symphony.Plan.Tick.{tick_approved_plans}
use nano_symphony.Plan.Executor.{
  RunnerResult, Runtime, DryRunSummary, begin_dry_run, end_dry_run, end_plan,
}
use nano_symphony.Plan.Routes.{create_plan_run, approve_route, delete_route}
use nano_symphony.Plan.Lifecycle.{
  Steps, created, dry_run_began, dry_run_ended, approved, approved_started, none_yet, and_then,
}
use nano_symphony.Plan.Lifecycle.Rows.{IsReviewed}
use nano_symphony.Plan.Lifecycle.Laws.{Steps-IsReviewed, end_plan-cancelled}
use nano_symphony.Plan.Progress.{sync_parent}
use nano_symphony.Plan.Progress.Laws.{synced_state}
use nano_symphony.Plan.Progress.Parent.{Moves, Succeeds, issue_state-sync_parent}
use nano_symphony.Tests.Samples.{issue_of, tables, sample_env, finished_plan}

abbrev input : PlanRunInput
input = record {
  id = "p";
  caller_issue_uuid = none;
  script = "";
  meta = object [];
  args = none;
  wall_time_ms = none;
}

abbrev summary : DryRunSummary
summary = record { ok = true; error = none; json = object [] }

-- the database after each of five transactions
abbrev empty : Database
empty = tables [] []

abbrev first_run : Database
first_run = (create_plan_run sample_env input empty).database

abbrev reviewed_run : Database
reviewed_run = end_dry_run sample_env "p" summary (begin_dry_run "p" first_run)

abbrev started_run : Database
started_run =
    (tick_approved_plans 5 [] (approve_route sample_env "p" none reviewed_run).database).database

to_the_start : Steps empty started_run
to_the_start =
    and_then
      (and_then
        (and_then (and_then (and_then none_yet (created sample_env input tt)) (dry_run_began "p"))
          (dry_run_ended sample_env "p" summary))
        (approved sample_env "p" none))
      (approved_started 5 [])

Steps-IsReviewed_example : All IsReviewed started_run.plan_runs
Steps-IsReviewed_example = Steps-IsReviewed empty started_run refl to_the_start

abbrev running_plan : PlanRun
running_plan = record finished_plan { state = PlanRunState.running }

abbrev with_plan : Database
with_plan = record (tables [] []) { plan_runs = running_plan ∷ [] }

abbrev runtime : Runtime
runtime = record { includes = λ s t. s == t; stringify = λ v. "{}" }

abbrev ended_well : RunnerResult
ended_well = record {
  ok = true;
  result = null;
  error = none;
  termination_reason = none;
  last_phase = none;
  last_log = none;
  last_log_at = none;
  sub_issues_started = 0;
  sub_issues_done = 0;
  sub_issues_failed = 0;
}

end_plan-cancelled_example :
    let stopped = (delete_route sample_env "p" with_plan).database in
    (Option.map {B = PlanRunState} (λ x. x.state) (get_plan_run "p" stopped)
      ≡ some PlanRunState.cancelled)
    × (Option.map {B = PlanRunState}
          (λ x. x.state)
          (get_plan_run "p" (end_plan sample_env runtime running_plan ended_well stopped))
        ≡ some PlanRunState.done)
unfolding get_plan_run find_row
end_plan-cancelled_example =
    end_plan-cancelled sample_env runtime running_plan ended_well with_plan refl refl

-- a caller and the one issue of its plan run
abbrev caller : Issue
caller = issue_of "a" "awaiting_plan" "high"

abbrev sub_issue : Issue
sub_issue = record (issue_of "s" "done" "high") { plan_run_id = some "p" }

abbrev family : Database
family = tables (caller ∷ sub_issue ∷ []) []

abbrev share : ℕ → ℕ → ℕ
share closed total = closed * 100 / total

synced : issue_state "a" (sync_parent share sample_env finished_plan caller family) ≡ some "done"
unfolding get_issue find_row list_issues_by_plan_run sort_by insert_by
synced = synced_state share sample_env finished_plan caller family refl

issue_state-sync_parent_example :
    let subs = list_issues_by_plan_run "p" family in
    let after = issue_state "a" (sync_parent share sample_env finished_plan caller family) in
    (Moves finished_plan subs caller × Succeeds finished_plan subs × (after ≡ some "done"))
    ⊎ (Moves finished_plan subs caller
        × (¬ Succeeds finished_plan subs)
        × (after ≡ some "cancelled"))
    ⊎ ((¬ Moves finished_plan subs caller) × (after ≡ some "awaiting_plan"))
unfolding get_issue find_row
issue_state-sync_parent_example =
    issue_state-sync_parent share sample_env finished_plan caller family refl
