-- ===== src/Plan/Lifecycle/Writes.antt =====
-- What each write to the plan runs keeps: src/http/routes/plan-runs.ts, src/orchestrator/plan-tick.ts and
-- src/orchestrator/plan-executor.ts.
use nano_symphony.Common.{
  ℕ, String, ◌≡◌, refl, ◌∙◌, inl, inr, Bool, true, false, ◌&&◌, ◌||◌, not, Option, none, some, List,
  [], ◌∷◌, ◌==◌, Bool-cases, Option-cases, one_of, All-append, Lacks,
}
use nano_symphony.Tracker.Types.{Issue, PlanRun, PlanRunState, Database, plan_run_key}
use nano_symphony.Tracker.Issues.{
  set_issue, update_issue_state, update_issue_plan_run_id, list_issues_by_plan_run, get_issue,
}
use nano_symphony.Tracker.Runs.{update_last_issue_state}
use nano_symphony.Tracker.Events.{record_event}
use nano_symphony.Tracker.PlanRuns.{
  PlanRunInput, insert_plan_run, inserted_plan_run, get_plan_run, update_plan_run_state,
  set_plan_run_dry_run_summary, finish_plan_run, approve_plan_run, reject_plan_run, state_text,
}
use nano_symphony.Worker.Env.{Env, log_event}
use nano_symphony.Plan.Tick.{
  resume_callers, resume_caller, resume_issue, note_closed, reopen, cancel_sub_issue,
  cancel_sub_issues, expire_plan, expire_plans,
}
use nano_symphony.Plan.Executor.{
  RunnerResult, Runtime, end_plan, note_failure, DryRunSummary, begin_dry_run, end_dry_run,
}
use nano_symphony.Plan.Routes.{
  Reply, create_plan_run, delete_route, if_awaiting, cancel_for_operator, cancel_all_for_operator,
}
use nano_symphony.Plan.Lifecycle.Rows.{
  IsReviewed, Inv, Inv-same, Inv-set_twice, Inv-set_plan_run, IsKeyed-append,
}

not_both : (x : Bool) → x ≡ false → x ≡ true → ⊥
not_both x e f = cc

Inv-finish :
    (id : String) (s : PlanRunState) (result : Option String) (now : ℕ) (d : Database)
    → (state_text s == "awaiting_approval") ≡ false
    → (state_text s == "running") ≡ false
    → Inv d
    → Inv (finish_plan_run id s result now d)
unfolding finish_plan_run
Inv-finish id s result now d a b =
    Inv-set_plan_run id _ d (λ r. refl)
      (λ r h. ((λ e. absurd (not_both _ a e)), (λ e. absurd (not_both _ b e))))

Inv-update_state :
    (id : String) (s : PlanRunState) (d : Database)
    → (state_text s == "awaiting_approval") ≡ false
    → (state_text s == "running") ≡ false
    → Inv d
    → Inv (update_plan_run_state id s d)
unfolding update_plan_run_state
Inv-update_state id s d a b =
    Inv-set_plan_run id _ d (λ r. refl)
      (λ r h. ((λ e. absurd (not_both _ a e)), (λ e. absurd (not_both _ b e))))

pub Inv-created :
    (env : Env) (input : PlanRunInput) (d : Database)
    → Lacks plan_run_key input.id d.plan_runs
    → Inv d
    → Inv (create_plan_run env input d).database
unfolding create_plan_run insert_plan_run inserted_plan_run
Inv-created env input d new h = record {
  keyed = IsKeyed-append plan_run_key d.plan_runs (inserted_plan_run input env.now) h.keyed new;
  reviewed =
      All-append IsReviewed d.plan_runs _ h.reviewed
        (((λ e. absurd (not_both _ refl e)), (λ e. absurd (not_both _ refl e))), tt);
}

pub Inv-begin_dry_run : (id : String) (d : Database) → Inv d → Inv (begin_dry_run id d)
unfolding begin_dry_run
Inv-begin_dry_run id d h = elim (Option-cases (get_plan_run id d)) [
  | inl e ↦ rw (begin_dry_run, e) h
  | inr (r, e) ↦ rw (begin_dry_run, e) (Inv-update_state id PlanRunState.dry_running d refl refl h)
]

-- A dry run that succeeded leaves its summary for approval.
pub Inv-end_dry_run :
    (env : Env) (id : String) (summary : DryRunSummary) (d : Database)
    → Inv d
    → Inv (end_dry_run env id summary d)
unfolding end_dry_run set_plan_run_dry_run_summary update_plan_run_state finish_plan_run
Inv-end_dry_run env id summary d h = elim (Bool-cases summary.ok) [
  | inl e ↦ rw e (
      Inv-set_twice id _ _ d (λ r. refl) (λ r. refl)
        (λ r k. ((λ _. refl), (λ x. absurd (not_both _ refl x)))) h)
  | inr e ↦ rw e (
      Inv-set_twice id _ _ d (λ r. refl) (λ r. refl)
        (λ r k. ((λ x. absurd (not_both _ refl x)), (λ x. absurd (not_both _ refl x)))) h)
]

pub Inv-if_awaiting :
    (id : String) (answer : Database → Reply) (d : Database)
    → Inv d
    → Inv (answer d).database
    → Inv (if_awaiting id answer d).database
unfolding if_awaiting
Inv-if_awaiting id answer d h k = elim (Option-cases (get_plan_run id d)) [
  | inl e ↦ rw (if_awaiting, e) h
  | inr (r, e) ↦ elim (Bool-cases (state_text r.state == "awaiting_approval")) [
    | inl a ↦ rw (if_awaiting, e, a) k
    | inr a ↦ rw (if_awaiting, e, a) h
  ]
]

pub Inv-approve :
    (id : String) (by : Option String) (now : ℕ) (d : Database)
    → Inv d
    → Inv (approve_plan_run id by now d)
unfolding approve_plan_run
Inv-approve id by now d =
    Inv-set_plan_run id _ d (λ r. refl) (λ r h. (h.0, (λ e. (refl, (h.1 e).1))))

pub Inv-reject :
    (id : String) (reason : Option String) (now : ℕ) (d : Database)
    → Inv d
    → Inv (reject_plan_run id reason now d)
unfolding reject_plan_run
Inv-reject id reason now d =
    Inv-set_plan_run id _ d (λ r. refl)
      (λ r h. ((λ e. absurd (not_both _ refl e)), (λ e. absurd (not_both _ refl e))))

cancel_for_operator-plan_runs :
    (env : Env) (id : String) (i : Issue) (d : Database)
    → (cancel_for_operator env id i d).plan_runs ≡ d.plan_runs
unfolding cancel_for_operator log_event record_event update_issue_state set_issue
cancel_for_operator-plan_runs env id i d =
    elim (Bool-cases (one_of i.state ("done" ∷ "cancelled" ∷ []))) [
      | inl e ↦ rw e refl
      | inr e ↦ rw e refl
    ]

pub cancel_all-plan_runs :
    (env : Env) (id : String) (is : List Issue) (d : Database)
    → (cancel_all_for_operator env id is d).plan_runs ≡ d.plan_runs
unfolding cancel_all_for_operator
cancel_all-plan_runs env id [] d = refl
cancel_all-plan_runs env id (i ∷ is) d =
    cancel_all-plan_runs env id is (cancel_for_operator env id i d)
    ∙ cancel_for_operator-plan_runs env id i d

pub Inv-delete :
    (env : Env) (id : String) (d : Database) → Inv d → Inv (delete_route env id d).database
unfolding delete_route
Inv-delete env id d h = elim (Option-cases (get_plan_run id d)) [
  | inl e ↦ rw (delete_route, e) h
  | inr (r, e) ↦
      elim (Bool-cases (one_of (state_text r.state) ("done" ∷ "failed" ∷ "cancelled" ∷ []))) [
        | inl a ↦ rw (delete_route, e, a) h
        | inr a ↦
            let d' =
              finish_plan_run id PlanRunState.cancelled (some "cancelled by operator") env.now d in
            rw (delete_route, e, a)
              (Inv-same (cancel_all-plan_runs env id (list_issues_by_plan_run id d') d')
                (Inv-finish id PlanRunState.cancelled _ env.now d refl refl h))
      ]
]

pub note_failure-plan_runs :
    (env : Env) (rt : Runtime) (run : PlanRun) (r : RunnerResult) (d : Database)
    → (note_failure env rt run r d).plan_runs ≡ d.plan_runs
unfolding note_failure log_event record_event
note_failure-plan_runs env rt run r d = elim (Option-cases run.caller_issue_uuid) [
  | inl e ↦ rw (note_failure, e) refl
  | inr (caller, e) ↦ elim (Bool-cases (caller == "")) [
    | inl a ↦ rw (note_failure, e, a) refl
    | inr a ↦ rw (note_failure, e, a) refl
  ]
]

pub Inv-end_plan :
    (env : Env) (rt : Runtime) (run : PlanRun) (r : RunnerResult) (d : Database)
    → Inv d
    → Inv (end_plan env rt run r d)
unfolding end_plan
Inv-end_plan env rt run r d h = elim (Bool-cases r.ok) [
  | inl e ↦ rw e (Inv-finish run.id PlanRunState.done _ env.now d refl refl h)
  | inr e ↦ rw e (
      Inv-same (note_failure-plan_runs env rt run r _)
        (Inv-finish run.id PlanRunState.failed r.error env.now d refl refl h))
]

cancel_sub_issue-plan_runs :
    (env : Env) (id : String) (i : Issue) (d : Database)
    → (cancel_sub_issue env id i d).plan_runs ≡ d.plan_runs
unfolding cancel_sub_issue log_event record_event update_issue_state set_issue
cancel_sub_issue-plan_runs env id i d =
    elim (Bool-cases (not (i.state == "done") && not (i.state == "cancelled"))) [
      | inl e ↦ rw e refl
      | inr e ↦ rw e refl
    ]

cancel_sub_issues-plan_runs :
    (env : Env) (id : String) (is : List Issue) (d : Database)
    → (cancel_sub_issues env id is d).plan_runs ≡ d.plan_runs
unfolding cancel_sub_issues
cancel_sub_issues-plan_runs env id [] d = refl
cancel_sub_issues-plan_runs env id (i ∷ is) d =
    cancel_sub_issues-plan_runs env id is (cancel_sub_issue env id i d)
    ∙ cancel_sub_issue-plan_runs env id i d

pub Inv-expire_plans :
    (env : Env) (rs : List PlanRun) (d : Database) → Inv d → Inv (expire_plans env rs d)
unfolding expire_plans expire_plan
Inv-expire_plans env [] d h = h
Inv-expire_plans env (r ∷ rs) d h =
    let d' = finish_plan_run r.id PlanRunState.cancelled (some "wall_time_exceeded") env.now d in
    Inv-expire_plans env rs _ (
      Inv-same (cancel_sub_issues-plan_runs env r.id (list_issues_by_plan_run r.id d') d')
        (Inv-finish r.id PlanRunState.cancelled _ env.now d refl refl h))

resume_issue-plan_runs :
    (env : Env) (r : PlanRun) (caller : String) (o : Option Issue) (d : Database)
    → (resume_issue env r caller o d).plan_runs ≡ d.plan_runs
unfolding resume_issue note_closed reopen log_event record_event update_issue_state set_issue
    update_issue_plan_run_id update_last_issue_state
resume_issue-plan_runs env r caller none d = refl
resume_issue-plan_runs env r caller (some i) d =
    elim (Bool-cases (i.state == "done" || i.state == "cancelled")) [
      | inl e ↦ rw e refl
      | inr e ↦ rw e refl
    ]

resume_caller-plan_runs :
    (env : Env) (r : PlanRun) (d : Database) → (resume_caller env r d).plan_runs ≡ d.plan_runs
unfolding resume_caller
resume_caller-plan_runs env r d = elim (Option-cases r.caller_issue_uuid) [
  | inl e ↦ rw (resume_caller, e) refl
  | inr (caller, e) ↦ elim (Bool-cases (caller == "")) [
    | inl a ↦ rw (resume_caller, e, a) refl
    | inr a ↦ rw (resume_caller, e, a) (resume_issue-plan_runs env r caller (get_issue caller d) d)
  ]
]

pub resume_callers-plan_runs :
    (env : Env) (rs : List PlanRun) (d : Database)
    → (resume_callers env rs d).plan_runs ≡ d.plan_runs
unfolding resume_callers
resume_callers-plan_runs env [] d = refl
resume_callers-plan_runs env (r ∷ rs) d =
    resume_callers-plan_runs env rs (resume_caller env r d) ∙ resume_caller-plan_runs env r d
