-- ===== src/Plan/Lifecycle.antt =====
-- The life of plan runs, composed of src/http/routes/plan-runs.ts, src/orchestrator/plan-tick.ts and
-- src/orchestrator/plan-executor.ts: every write to a plan run, in any order.
pub mod Rows
pub mod Writes
pub mod Laws
use nano_symphony.Common.{ℕ, String, not, Option, List, any, Lacks}
use nano_symphony.Tracker.Types.{PlanRun, Database, plan_run_key}
use nano_symphony.Tracker.PlanRuns.{PlanRunInput}
use nano_symphony.Worker.Env.{Env}
use nano_symphony.Plan.Tick.{
  Flight, tick_approved_plans, resume_running_plans, tick_finalized_plans, tick_expired_plans,
}
use nano_symphony.Plan.Executor.{
  RunnerResult, Runtime, end_plan, DryRunSummary, begin_dry_run, end_dry_run,
}
use nano_symphony.Plan.Routes.{
  Reply, create_plan_run, approve_route, reject_route, request_changes_route, delete_route,
}

-- One transaction. The id of a new plan run is not in use.
pub data Step : Database → Database → Type 0 where
  created :
      {d : Database} (env : Env) (input : PlanRunInput)
      → Lacks plan_run_key input.id d.plan_runs
      → Step d (create_plan_run env input d).database
  dry_run_began : {d : Database} (id : String) → Step d (begin_dry_run id d)
  dry_run_ended :
      {d : Database} (env : Env) (id : String) (summary : DryRunSummary)
      → Step d (end_dry_run env id summary d)
  approved :
      {d : Database} (env : Env) (id : String) (by : Option String)
      → Step d (approve_route env id by d).database
  rejected :
      {d : Database} (env : Env) (id : String) (reason : Option String)
      → Step d (reject_route env id reason d).database
  changes_requested :
      {d : Database} (env : Env) (id : String) (suggestion : Option String)
      → Step d (request_changes_route env id suggestion d).database
  cancelled : {d : Database} (env : Env) (id : String) → Step d (delete_route env id d).database
  approved_started :
      {d : Database} (now : ℕ) (in_flight : List String)
      → Step d (tick_approved_plans now in_flight d).database
  running_resumed :
      {d : Database} (now : ℕ) (in_flight : List String)
      → Step d (resume_running_plans now in_flight d).database
  plan_ended :
      {d : Database} (env : Env) (rt : Runtime) (run : PlanRun) (r : RunnerResult)
      → Step d (end_plan env rt run r d)
  expired : {d : Database} (env : Env) → Step d (tick_expired_plans env d)
  callers_resumed : {d : Database} (env : Env) → Step d (tick_finalized_plans env d)

-- any number of them
pub data Steps : Database → Database → Type 0 where
  none_yet : {d : Database} → Steps d d
  and_then : {a b c : Database} → Steps a b → Step b c → Steps a c
