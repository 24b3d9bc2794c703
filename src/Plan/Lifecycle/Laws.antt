-- ===== src/Plan/Lifecycle/Laws.antt =====
-- The life of plan runs as a whole: src/http/routes/plan-runs.ts, src/orchestrator/plan-tick.ts and
-- src/orchestrator/plan-executor.ts.
use mathlib.Core.Option
use nano_symphony.Common.{
  ℕ, String, ◌≡◌, refl, sym, ap, ◌∙◌, subst, inl, inr, Bool, true, false, ◌&&◌, Option, some, List,
  [], ◌∷◌, eq_iff, eq_refl, if◌then◌else◌, Bool-cases, get_or, one_of, All, find_row, IsKeyed,
  find_row-update_rows,
}
use nano_symphony.Tracker.Types.{PlanRun, PlanRunState, Database, plan_run_key}
use nano_symphony.Tracker.PlanRuns.{
  finish_plan_run, set_plan_run, get_plan_run, is_state, is_approved, list_approved_plan_runs,
  list_running_plan_runs, list_expired_running_plan_runs, list_finalized_plan_runs_with_caller,
  state_text,
}
use nano_symphony.Worker.Env.{Env}
use nano_symphony.Plan.Tick.{
  flight, tick_approved_plans, resume_running_plans, tick_finalized_plans, tick_expired_plans,
}
use nano_symphony.Tracker.Issues.{list_issues_by_plan_run}
use nano_symphony.Plan.Executor.{result_text, RunnerResult, Runtime, end_plan}
use nano_symphony.Plan.Routes.{
  approve_answer, reject_answer, change_request, approve_route, reject_route, request_changes_route,
  delete_route,
}
use nano_symphony.Plan.Lifecycle.{
  Step, Steps, created, dry_run_began, dry_run_ended, approved, rejected, changes_requested,
  cancelled, approved_started, running_resumed, plan_ended, expired, callers_resumed, none_yet,
  and_then,
}
use nano_symphony.Plan.Lifecycle.Rows.{IsReviewed, Inv, Inv-same, Inv-start_selected}
use nano_symphony.Plan.Lifecycle.Writes.{
  Inv-created, Inv-begin_dry_run, Inv-end_dry_run, Inv-if_awaiting, Inv-approve, Inv-reject,
  Inv-delete, Inv-end_plan, Inv-expire_plans, resume_callers-plan_runs, cancel_all-plan_runs,
  note_failure-plan_runs,
}

both : (a b : Bool) → a && b ≡ true → (a ≡ true) × (b ≡ true)
both true true h = (refl, refl)
both true false h = cc
both false b h = cc

Inv-tick_approved :
    (now : ℕ) (in_flight : List String) (d : Database)
    → Inv d
    → Inv (tick_approved_plans now in_flight d).database
unfolding tick_approved_plans list_approved_plan_runs
Inv-tick_approved now in_flight d = Inv-start_selected now _ (flight in_flight d) (λ r h e.
    let parts =
      both (is_state PlanRunState.awaiting_approval r) (is_approved r.approval_status) e in
    (parts.1, h.0 parts.0))

Inv-resume_running :
    (now : ℕ) (in_flight : List String) (d : Database)
    → Inv d
    → Inv (resume_running_plans now in_flight d).database
unfolding resume_running_plans list_running_plan_runs
Inv-resume_running now in_flight d = Inv-start_selected now _ (flight in_flight d) (λ r h e. h.1 e)

Inv-Step : {a b : Database} → Step a b → Inv a → Inv b
unfolding approve_route reject_route request_changes_route tick_expired_plans tick_finalized_plans
Inv-Step (created {d} env input new) h = Inv-created env input d new h
Inv-Step (dry_run_began {d} id) h = Inv-begin_dry_run id d h
Inv-Step (dry_run_ended {d} env id summary) h = Inv-end_dry_run env id summary d h
Inv-Step (approved {d} env id by) h =
    Inv-if_awaiting id (approve_answer env id by) d h
      (Inv-approve id (some (get_or by "operator")) env.now d h)
Inv-Step (rejected {d} env id reason) h =
    let why = get_or reason "Rejected" in
    Inv-if_awaiting id (reject_answer env id why) d h (Inv-reject id (some why) env.now d h)
Inv-Step (changes_requested {d} env id suggestion) h =
    let why = change_request suggestion in
    Inv-if_awaiting id (reject_answer env id why) d h (Inv-reject id (some why) env.now d h)
Inv-Step (cancelled {d} env id) h = Inv-delete env id d h
Inv-Step (approved_started {d} now in_flight) h = Inv-tick_approved now in_flight d h
Inv-Step (running_resumed {d} now in_flight) h = Inv-resume_running now in_flight d h
Inv-Step (plan_ended {d} env rt run r) h = Inv-end_plan env rt run r d h
Inv-Step (expired {d} env) h = Inv-expire_plans env (list_expired_running_plan_runs env.now d) d h
Inv-Step (callers_resumed {d} env) h =
    Inv-same (resume_callers-plan_runs env (list_finalized_plan_runs_with_caller d) d) h

Inv-Steps : {a b : Database} → Steps a b → Inv a → Inv b
Inv-Steps none_yet h = h
Inv-Steps (and_then s t) h = Inv-Step t (Inv-Steps s h)

-- However the routes, the ticks and the executor interleave, from a tracker without plan runs: a plan run
-- that is running was approved by an operator, and it and each that awaits approval
-- have the summary of a dry run.
pub Steps-IsReviewed : (a b : Database) → a.plan_runs ≡ [] → Steps a b → All IsReviewed b.plan_runs
Steps-IsReviewed a b e steps = (Inv-Steps steps start).reviewed
  where
    start : Inv a
    start = record {
      keyed = subst (IsKeyed plan_run_key) (sym e) tt;
      reviewed = subst (All IsReviewed) (sym e) tt;
    }

-- the plan run as it is finished
abbrev finished_with : PlanRunState → Option String → ℕ → PlanRun → PlanRun
finished_with s result now r = record r { state = s; result = result; finished_at = some now }

get_plan_run-finish :
    (id : String) (s : PlanRunState) (result : Option String) (now : ℕ) (d : Database) (r : PlanRun)
    → get_plan_run id d ≡ some r
    → get_plan_run id (finish_plan_run id s result now d) ≡ some (finished_with s result now r)
unfolding get_plan_run finish_plan_run set_plan_run
get_plan_run-finish id s result now d r found =
    find_row-update_rows plan_run_key id id (finished_with s result now) (λ x. refl) d.plan_runs
    ∙ ap
        (λ b.
          if b
          then Option.map (finished_with s result now) (find_row plan_run_key id d.plan_runs)
          else find_row plan_run_key id d.plan_runs)
        (eq_refl id)
    ∙ ap (Option.map (finished_with s result now)) found

get_plan_run-same :
    (id : String) (a b : Database)
    → b.plan_runs ≡ a.plan_runs
    → get_plan_run id b ≡ get_plan_run id a
unfolding get_plan_run
get_plan_run-same id a b e = ap (find_row plan_run_key id) e

get_plan_run-delete :
    (env : Env) (d : Database) (run : PlanRun)
    → get_plan_run run.id d ≡ some run
    → is_state PlanRunState.running run ≡ true
    → get_plan_run run.id (delete_route env run.id d).database
      ≡ some (finished_with PlanRunState.cancelled (some "cancelled by operator") env.now run)
unfolding delete_route
get_plan_run-delete env d run found running =
    let d' =
      finish_plan_run run.id PlanRunState.cancelled (some "cancelled by operator") env.now d in
    let is_open : one_of (state_text run.state) ("done" ∷ "failed" ∷ "cancelled" ∷ []) ≡ false =
      ap (λ t. one_of t ("done" ∷ "failed" ∷ "cancelled" ∷ [])) ((eq_iff _ _).0 running) in
    rw (delete_route, found, is_open)
      (get_plan_run-same run.id d' _
          (cancel_all-plan_runs env run.id (list_issues_by_plan_run run.id d') d')
        ∙ get_plan_run-finish run.id PlanRunState.cancelled _ env.now d run found)

-- The operator cancels a plan run of the table while it is running: it is cancelled then, and when its script
-- ends it becomes done or failed by what the script answered.
pub end_plan-cancelled :
    (env : Env) (rt : Runtime) (run : PlanRun) (r : RunnerResult) (d : Database)
    → get_plan_run run.id d ≡ some run
    → is_state PlanRunState.running run ≡ true
    → let stopped = (delete_route env run.id d).database in
      (Option.map (λ x. x.state) (get_plan_run run.id stopped) ≡ some PlanRunState.cancelled)
      × (Option.map (λ x. x.state) (get_plan_run run.id (end_plan env rt run r stopped))
          ≡ some (if r.ok then PlanRunState.done else PlanRunState.failed))
unfolding end_plan
end_plan-cancelled env rt run r d found running =
    let stopped = (delete_route env run.id d).database in
    let gone = get_plan_run-delete env d run found running in
    (
      ap (Option.map (λ x. x.state)) gone,
      elim (Bool-cases r.ok) [
        | inl e ↦ rw e (
            ap (Option.map (λ x. x.state)) (
              get_plan_run-finish run.id PlanRunState.done (result_text rt r.result) env.now stopped
                _ gone))
        | inr e ↦ rw e (
            ap (Option.map (λ x. x.state)) (
              get_plan_run-same run.id _ _ (
                note_failure-plan_runs env rt run r
                  (finish_plan_run run.id PlanRunState.failed r.error env.now stopped))
              ∙ get_plan_run-finish run.id PlanRunState.failed r.error env.now stopped _ gone))
      ],
    )
