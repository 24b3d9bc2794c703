-- ===== src/Plan/Tick.antt =====
-- The plan loops of every tick: src/orchestrator/plan-tick.ts. The dry runs and executions that the loops
-- start run on their own; a loop answers the plan runs that it starts, and `inFlight` is a list of ids.
pub mod Resume
pub mod Flights
use nano_symphony.Common.{
  ℕ, ◌+◌, ◌-◌, String, true, ◌&&◌, ◌||◌, not, Option, none, some, List, [], ◌∷◌, ◌++◌, ◌==◌,
  if◌then◌else◌, one_of, concat,
}
use nano_symphony.Json.{Json, str, bool, object, text_or_null}
use nano_symphony.Tracker.Types.{Issue, PlanRun, PlanRunState, Database}
use nano_symphony.Tracker.Issues.{
  get_issue, update_issue_state, update_issue_plan_run_id, list_issues_by_plan_run,
}
use nano_symphony.Tracker.Runs.{update_last_issue_state}
use nano_symphony.Tracker.PlanRuns.{
  list_pending_plan_runs, list_approved_plan_runs, list_running_plan_runs, set_plan_run_running,
  list_finalized_plan_runs_with_caller, list_expired_running_plan_runs, finish_plan_run, state_text,
}
use nano_symphony.Worker.Env.{Env, log_event}

-- what a loop leaves: the plan runs in flight, those it started, and the database
pub record Flight : Type 0 where
  pub in_flight : List String
  pub started : List String
  pub database : Database

unfoldable pub begin : PlanRun → Flight → Flight
begin r f = record f { in_flight = f.in_flight ++ r.id ∷ []; started = f.started ++ r.id ∷ [] }

unfoldable pub start_dry_run : PlanRun → Flight → Flight
unfolding begin
start_dry_run r f = if one_of r.id f.in_flight then f else begin r f

-- Marks the plan run as running, and starts it.
unfoldable pub start_run : ℕ → PlanRun → Flight → Flight
unfolding begin
start_run now r f =
    if one_of r.id f.in_flight
    then f
    else begin r (record f { database = set_plan_run_running r.id now f.database })

unfoldable pub start_each : (PlanRun → Flight → Flight) → List PlanRun → Flight → Flight
start_each start [] f = f
start_each start (r ∷ rs) f = start_each start rs (start r f)

abbrev pub flight : List String → Database → Flight
flight in_flight d = record { in_flight = in_flight; started = []; database = d }

unfoldable pub tick_pending_plans : List String → Database → Flight
tick_pending_plans in_flight d =
    start_each start_dry_run (list_pending_plan_runs d) (flight in_flight d)

unfoldable pub tick_approved_plans : ℕ → List String → Database → Flight
tick_approved_plans now in_flight d =
    start_each (start_run now) (list_approved_plan_runs d) (flight in_flight d)

unfoldable pub resume_running_plans : ℕ → List String → Database → Flight
resume_running_plans now in_flight d =
    start_each (start_run now) (list_running_plan_runs d) (flight in_flight d)

unfoldable pub finalized : PlanRun → List String → String
finalized r rest =
    concat ("Plan run " ∷ r.id ∷ " finalized (" ∷ state_text r.state ∷ ")" ∷ concat rest ∷ [])

unfoldable pub told : PlanRun → List (String × Json) → Option Json
told r rest = some (
    object (
      ("plan_run_id", str r.id)
      ∷ ("run_state", str (state_text r.state))
      ∷ ("result", text_or_null r.result)
      ∷ rest))

-- The caller is closed already: only the event is recorded.
unfoldable pub note_closed : Env → PlanRun → String → Issue → Database → Database
unfolding finalized told
note_closed env r caller i d =
    log_event env caller "caller_resumed" (finalized r (", caller already " ∷ i.state ∷ []))
      (told r (("skipped_resume", bool true) ∷ [])) d

-- The caller goes back to todo.
unfoldable pub reopen : Env → PlanRun → String → Database → Database
unfolding finalized told
reopen env r caller d = update_last_issue_state caller "todo" (
    update_issue_state env.now caller "todo" (
      update_issue_plan_run_id env.now caller none
        (log_event env caller "caller_resumed" (finalized r []) (told r []) d)))

unfoldable pub resume_issue : Env → PlanRun → String → Option Issue → Database → Database
unfolding note_closed
resume_issue env r caller none d = d
resume_issue env r caller (some i) d =
    if i.state == "done" || i.state == "cancelled"
    then note_closed env r caller i d
    else reopen env r caller d

-- `if (!run.caller_issue_uuid) continue;`
unfoldable pub resume_caller : Env → PlanRun → Database → Database
unfolding resume_issue
resume_caller env r d = elim r.caller_issue_uuid [
  | none ↦ d
  | some caller ↦ if caller == "" then d else resume_issue env r caller (get_issue caller d) d
]

unfoldable pub resume_callers : Env → List PlanRun → Database → Database
resume_callers env [] d = d
resume_callers env (r ∷ rs) d = resume_callers env rs (resume_caller env r d)

unfoldable pub tick_finalized_plans : Env → Database → Database
tick_finalized_plans env d = resume_callers env (list_finalized_plan_runs_with_caller d) d

unfoldable pub cancel_sub_issue : Env → String → Issue → Database → Database
cancel_sub_issue env id i d =
    if not (i.state == "done") && not (i.state == "cancelled")
    then log_event env i.uuid "issue_cancelled"
        (concat ("Cancelled: parent plan run " ∷ id ∷ " wall-time exceeded" ∷ []))
        (some (object (("plan_run_id", str id) ∷ [])))
        (update_issue_state env.now i.uuid "cancelled" d)
    else d

unfoldable pub cancel_sub_issues : Env → String → List Issue → Database → Database
cancel_sub_issues env id [] d = d
cancel_sub_issues env id (i ∷ is) d = cancel_sub_issues env id is (cancel_sub_issue env id i d)

unfoldable pub expire_plan : Env → PlanRun → Database → Database
expire_plan env r d0 =
    let d = finish_plan_run r.id PlanRunState.cancelled (some "wall_time_exceeded") env.now d0 in
    cancel_sub_issues env r.id (list_issues_by_plan_run r.id d) d

unfoldable pub expire_plans : Env → List PlanRun → Database → Database
expire_plans env [] d = d
expire_plans env (r ∷ rs) d = expire_plans env rs (expire_plan env r d)

unfoldable pub tick_expired_plans : Env → Database → Database
tick_expired_plans env d = expire_plans env (list_expired_running_plan_runs env.now d) d
