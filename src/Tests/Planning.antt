-- ===== src/Tests/Planning.antt =====
-- A caller and its finished plan run at concrete tables.
use nano_symphony.Common.{ℕ, String, ◌≡◌, refl, true, false, some, [], ◌∷◌, one_of, All, find_row}
use nano_symphony.Tracker.Types.{Issue, PlanRunState, PlanRunApprovalStatus, Database}
use nano_symphony.Tracker.PlanRuns.{
  list_pending_plan_runs, list_approved_plan_runs, list_running_plan_runs,
}
use nano_symphony.Tracker.Issues.{get_issue}
use nano_symphony.Tracker.Issues.Candidates.{is_candidate}
use nano_symphony.Tracker.Runs.{get_run, is_claimable, claim_issue}
use nano_symphony.Worker.Settle.Guards.{issue_state}
use nano_symphony.Worker.Settle.Verdict.{text_ne}
use nano_symphony.Plan.Tick.{
  resume_caller, tick_pending_plans, tick_approved_plans, resume_running_plans, start_each,
  start_dry_run, start_run, begin,
}
use nano_symphony.Plan.Tick.Flights.{ticks-IsFresh}
use nano_symphony.Plan.Tick.Resume.{resume_caller-stuck}
use nano_symphony.Tests.Samples.{issue_of, run_of, tables, sample_env, finished_plan}

-- the caller of a finished plan run, as its worker left it
abbrev parked : Database
parked =
    tables (record (issue_of "a" "awaiting_plan" "high") { plan_run_id = some "p" } ∷ [])
      (run_of "a" "awaiting_plan" "awaiting_plan" ∷ [])

resume_caller-stuck_example :
    let d' = resume_caller sample_env finished_plan parked in
    (issue_state "a" d' ≡ some "todo")
    × ((now : ℕ) (j : Issue) → get_issue "a" d' ≡ some j → is_candidate now d' j ≡ false)
    × (is_claimable (run_of "a" "awaiting_plan" "awaiting_plan") ≡ false
        → (a now : ℕ) → (claim_issue "a" a now d').1 ≡ false)
unfolding get_issue find_row get_run
resume_caller-stuck_example =
    resume_caller-stuck sample_env finished_plan "a" parked
      (record (issue_of "a" "awaiting_plan" "high") { plan_run_id = some "p" })
      (run_of "a" "awaiting_plan" "awaiting_plan") refl (text_ne "a" "" refl) refl
      (text_ne "awaiting_plan" "done" refl) (text_ne "awaiting_plan" "cancelled" refl) refl

-- one plan run of each kind in flight, and one that is not
abbrev flying : Database
flying = record parked {
  plan_runs =
      record finished_plan { id = "p"; state = PlanRunState.pending }
      ∷ record finished_plan { id = "q"; state = PlanRunState.pending }
      ∷ record finished_plan {
        id = "r";
        state = PlanRunState.awaiting_approval;
        approval_status = some PlanRunApprovalStatus.approved;
      }
      ∷ record finished_plan { id = "s"; state = PlanRunState.running }
      ∷ [];
}

started_pending : (tick_pending_plans ("p" ∷ []) flying).started ≡ "q" ∷ []
unfolding tick_pending_plans start_each start_dry_run begin list_pending_plan_runs
started_pending = refl

started_approved : (tick_approved_plans 1000 ("p" ∷ []) flying).started ≡ "r" ∷ []
unfolding tick_approved_plans start_each start_run begin list_approved_plan_runs
started_approved = refl

started_running : (resume_running_plans 1000 ("p" ∷ []) flying).started ≡ "s" ∷ []
unfolding resume_running_plans start_each start_run begin list_running_plan_runs
started_running = refl

ticks-IsFresh_example :
    let dry = tick_pending_plans ("p" ∷ []) flying in
    let real = tick_approved_plans 1000 ("p" ∷ []) flying in
    let resumed = resume_running_plans 1000 ("p" ∷ []) flying in
    All (λ id. one_of id ("p" ∷ []) ≡ false) dry.started
    × All (λ id. one_of id ("p" ∷ []) ≡ false) real.started
    × All (λ id. one_of id ("p" ∷ []) ≡ false) resumed.started
    × ((id : String)
        → one_of id ("p" ∷ []) ≡ true
        → (one_of id dry.in_flight ≡ true)
          × (one_of id real.in_flight ≡ true)
          × (one_of id resumed.in_flight ≡ true))
ticks-IsFresh_example = ticks-IsFresh 1000 ("p" ∷ []) flying
