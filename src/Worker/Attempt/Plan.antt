-- ===== src/Worker/Attempt/Plan.antt =====
-- Attempts whose agent left the issue to a plan run, in runWorker of src/orchestrator/worker.ts.
use nano_symphony.Common.{
  ℕ, String, ◌≡◌, refl, ap, ◌∙◌, inl, inr, Bool, true, false, ◌&&◌, Option, none, some, arith, ◌==◌,
  eq_iff, Bool-cases, get_or,
}
use nano_symphony.Tracker.Types.{Issue, Run, Database}
use nano_symphony.Tracker.Runs.{get_run}
use nano_symphony.Tracker.Issues.{get_issue}
use nano_symphony.Worker.Env.{Env}
use nano_symphony.Worker.Completion.{SpawnResult}
use nano_symphony.Worker.Budget.{Tokens, check_issue_budget}
use nano_symphony.Worker.Override.{Report}
use nano_symphony.Worker.Settle.{
  Policy, Transitions, transition_for, settle, finish_handoff, move_to, move_to_target,
}
use nano_symphony.Worker.Settle.Guards.{
  issue_state-update_issue_state, issue_state, given_back, finish_handoff_view,
}
use nano_symphony.Worker.Settle.Run.{map-some, get_run-move_to_target}
use nano_symphony.Worker.Attempt.Quiet.{IsQuiet-hear}
use nano_symphony.Worker.Attempt.Run.{still_there}
use nano_symphony.Worker.Attempt.Limit.{check_issue_budget-same}
use nano_symphony.Worker.Attempt.{
  Decision, Outcome, hear, decide, finish_attempt, final_tokens, cost_of, budget_guard,
  plan_handoff, is_handed_to_plan, plan_guard,
}

get_issue-same :
    (u : String) (d d' : Database) → d'.issues ≡ d.issues → get_issue u d' ≡ get_issue u d
unfolding get_issue
get_issue-same u d d' e = rw e refl

never : (a b : Bool) → (a && (b && false)) ≡ false
never a b = ground arith

plan_guard-passes :
    (env : Env) (u : String) (attempt : ℕ) (issue : Issue) (c : Decision) (d : Database)
    → (c.report.semantics == "success") ≡ false
    → plan_guard env u attempt issue c d ≡ (c, d)
unfolding plan_guard
plan_guard-passes env u attempt issue c d e = rw (e, plan_guard, never) refl

budget_guard-passes :
    (env : Env) (u : String) (attempt : ℕ) (t : Transitions) (s : Option SpawnResult)
    (tokens : Option Tokens) (cost : Option ℕ) (c : Decision) (d : Database)
    → check_issue_budget env u tokens cost d ≡ none
    → budget_guard env u attempt t s tokens cost c d ≡ (c, d)
unfolding budget_guard
budget_guard-passes env u attempt t none tokens cost c d h = refl
budget_guard-passes env u attempt t (some s) tokens cost c d h = rw (h, budget_guard) refl

abbrev handed_over : Report → Decision
handed_over r = record {
  report = record r {
    semantics = "handoff";
    summary = some (get_or r.summary "Handed off to plan run");
  };
  target = some "awaiting_plan";
}

plan_handoff-handed :
    (env : Env) (u : String) (attempt : ℕ) (c : Decision) (d : Database) (i : Issue)
    → get_issue u d ≡ some i
    → is_handed_to_plan env u attempt (some i) c.report.semantics ≡ true
    → plan_handoff env u attempt c d ≡ handed_over c.report
unfolding plan_handoff
plan_handoff-handed env u attempt c d i found handed = rw (found, handed, plan_handoff) refl

settle_handoff :
    (env : Env) (policy : Policy) (u : String) (attempt : ℕ) (issue : Issue) (r : Report)
    (d : Database)
    → settle env policy u attempt issue (handed_over r).report (some "awaiting_plan") false d
      ≡ finish_handoff env policy u attempt issue
          (handed_over r).report
          "awaiting_plan"
          (move_to_target env policy u attempt issue (some "awaiting_plan") d)
unfolding settle
settle_handoff env policy u attempt issue r d = refl

-- An issue that is in the state already stays in it.
issue_state-move_to_same :
    (env : Env) (u s : String) (issue : Issue) (d : Database)
    → issue_state u d ≡ some s
    → issue_state u (move_to env u issue s d) ≡ some s
issue_state-move_to_same env u s issue d h = elim (Bool-cases (s == issue.state)) [
  | inl e ↦ rw e h
  | inr e ↦ rw e (issue_state-update_issue_state env.now u s s d h)
]

abbrev waiting : Run → Run
waiting = given_back "awaiting_plan" "awaiting_plan"

module _ (env : Env) (policy : Policy) (normalize : String → String) (u : String) (attempt : ℕ)
    (issue : Issue) (o : Outcome) where
  waits_in :
      (i : Issue) (semantics : String)
      → is_handed_to_plan env u attempt (some i) semantics ≡ true
      → i.state ≡ "awaiting_plan"
  unfolding is_handed_to_plan
  waits_in i semantics h = ground (arith, eq_iff i.state "awaiting_plan")

  decide-handed_over :
      (r : Report) (d : Database) (i : Issue)
      → get_issue u d ≡ some i
      → is_handed_to_plan env u attempt (some i) r.semantics ≡ true
      → check_issue_budget env u (final_tokens o.payload o.counted) (cost_of o.payload) d ≡ none
      → decide env policy normalize u attempt issue o r d ≡ (handed_over r, d)
  unfolding decide
  decide-handed_over r d i found handed within =
      let c0 : Decision = record {
        report = r;
        target = transition_for policy.transitions r.semantics;
      } in
      rw
        (
          decide,
          plan_handoff-handed env u attempt c0 d i found handed,
          plan_guard-passes env u attempt issue (handed_over r) d refl,
          budget_guard-passes env u attempt policy.transitions o.spawned _ _ (handed_over r) d
              within,
        )
        refl

  -- Where the agent put its issue into awaiting_plan with a plan run, did not come out as a success and the
  -- issue is within its budget, the attempt ends as a handoff: the issue stays in awaiting_plan, and its run
  -- waits there with it.
  pub finish_attempt_handed_over :
      (d : Database) (i : Issue) (x : Run)
      → get_issue u d ≡ some i
      → get_run u d ≡ some x
      → is_handed_to_plan env u attempt
          (some i)
          (hear env policy normalize u attempt issue o d).0.semantics
        ≡ true
      → check_issue_budget env u (final_tokens o.payload o.counted) (cost_of o.payload) d ≡ none
      → let (final, d') = finish_attempt env policy normalize u attempt issue o d in
        (final.semantics ≡ "handoff")
        × (issue_state u d' ≡ some "awaiting_plan")
        × ((y : Run) × (get_run u d' ≡ some y) × (y.last_state ≡ "awaiting_plan"))
  unfolding finish_attempt finish_handoff move_to_target
  finish_attempt_handed_over d i x found run handed within =
      let heard = hear env policy normalize u attempt issue o d in
      let quiet = IsQuiet-hear env policy normalize u attempt issue o d in
      let r = heard.0 in
      let d1 = heard.1 in
      let found' = get_issue-same u d d1 quiet.0 ∙ found in
      let within' = check_issue_budget-same env u _ _ d d1 quiet.0 quiet.1 ∙ within in
      let (x1, h1) = still_there u d d1 x quiet.2 run in
      let moved = move_to_target env policy u attempt issue (some "awaiting_plan") d1 in
      let view =
        finish_handoff_view env policy u attempt issue (handed_over r).report "awaiting_plan"
          moved in
      rw
        (
          finish_attempt,
          decide-handed_over r d1 i found' handed within',
          settle_handoff env policy u attempt issue r d1,
        )
        (
          refl,
          view.1
              ∙ issue_state-move_to_same env u "awaiting_plan" issue d1
                  (map-some (λ j. j.state) found' ∙ ap some (waits_in i r.semantics handed)),
          (
            waiting x1,
            view.0
                ∙ map-some waiting (
                    get_run-move_to_target env policy u attempt issue (some "awaiting_plan") d1
                    ∙ h1),
            refl,
          ),
        )
