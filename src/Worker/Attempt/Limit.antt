-- ===== src/Worker/Attempt/Limit.antt =====
-- Attempts over the budget of their issue, in runWorker of src/orchestrator/worker.ts.
use nano_symphony.Common.{ℕ, String, ◌≡◌, refl, ◌∙◌, true, Option, none, some, is_some}
use nano_symphony.Tracker.Types.{Issue, Database}
use nano_symphony.Tracker.Issues.{get_issue}
use nano_symphony.Tracker.Events.{get_llm_call_summary}
use nano_symphony.Worker.Env.{Env}
use nano_symphony.Worker.Completion.{SpawnResult}
use nano_symphony.Worker.Budget.{Tokens, Excess, check_issue_budget}
use nano_symphony.Worker.Settle.{
  transition_for, Policy, transition_for, settle, fallback_state, abandon,
}
use nano_symphony.Worker.Attempt.{
  plan_handoff, plan_guard, Decision, Outcome, hear, decide, finish_attempt, final_tokens, cost_of,
  budget_guard, exceeded,
}
use nano_symphony.Worker.Attempt.Quiet.{IsQuiet-hear, IsQuiet-plan}

pub check_issue_budget-same :
    (env : Env) (u : String) (t : Option Tokens) (cost : Option ℕ) (d d' : Database)
    → d'.issues ≡ d.issues
    → d'.llm_calls ≡ d.llm_calls
    → check_issue_budget env u t cost d' ≡ check_issue_budget env u t cost d
unfolding check_issue_budget get_issue get_llm_call_summary
check_issue_budget-same env u t cost d d' p q = rw (p, q)

budget_guard-exceeded :
    (env : Env) (policy : Policy) (u : String) (attempt : ℕ) (s : Option SpawnResult)
    (t : Option Tokens) (cost : Option ℕ) (c : Decision) (d : Database) (x : Excess)
    → is_some s ≡ true
    → check_issue_budget env u t cost d ≡ some x
    → budget_guard env u attempt policy.transitions s t cost c d
      ≡ exceeded env u attempt policy.transitions x d
unfolding budget_guard
budget_guard-exceeded env policy u attempt none t cost c d x f h = cc
budget_guard-exceeded env policy u attempt (some s) t cost c d x f h = rw (h, budget_guard)

module _ (env : Env) (policy : Policy) (normalize : String → String) (u : String) (attempt : ℕ)
    (issue : Issue) (o : Outcome) where
  decide-exceeded :
      (d : Database) (x : Excess)
      → is_some o.spawned ≡ true
      → check_issue_budget env u (final_tokens o.payload o.counted) (cost_of o.payload) d ≡ some x
      → let (r, d1) = hear env policy normalize u attempt issue o d in
        (d2 : Database) × (decide env policy normalize u attempt issue o r d1
          ≡ exceeded env u attempt policy.transitions x d2)
  unfolding decide
  decide-exceeded d x ran over =
      let (r, d1) = hear env policy normalize u attempt issue o d in
      let c0 : Decision = record {
        report = r;
        target = transition_for policy.transitions r.semantics;
      } in
      let c = plan_handoff env u attempt c0 d1 in
      let (c2, d2) = plan_guard env u attempt issue c d1 in
      let heard = IsQuiet-hear env policy normalize u attempt issue o d in
      let planned = IsQuiet-plan env u attempt issue c d1 in
      (
        d2,
        budget_guard-exceeded env policy u attempt o.spawned _ _ c2 d2 x ran (
            check_issue_budget-same env u _ _ d d2 (planned.0 ∙ heard.0) (planned.1 ∙ heard.1)
            ∙ over),
      )

  -- Where the agent's process was run to its end and the tokens or costs of all attempts, this one included,
  -- exceed the issue's budget, the attempt counts as abandoned and its target is the state for that: not a
  -- success, not a handoff and not a retry.
  pub finish_attempt_over_budget :
      (d : Database) (x : Excess)
      → is_some o.spawned ≡ true
      → check_issue_budget env u (final_tokens o.payload o.counted) (cost_of o.payload) d ≡ some x
      → let final = (finish_attempt env policy normalize u attempt issue o d).0 in
        (final.semantics ≡ "abandoned") × (final.target_state ≡ fallback_state policy.transitions)
  unfolding finish_attempt decide exceeded settle abandon
  finish_attempt_over_budget d x ran over =
      let (d2, e) = decide-exceeded d x ran over in rw e (refl, refl)
