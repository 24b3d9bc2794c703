-- ===== src/Worker/Settle/Exhausted.antt =====
-- Attempts with no retries left, in the transaction of runWorker in src/orchestrator/worker.ts.
use nano_symphony.Common.{
  ℕ, ◌≤◌, max, String, ◌≡◌, refl, sym, ◌∙◌, ◌≢◌, true, false, none, some, arith, eq_iff,
}
use nano_symphony.Tracker.Types.{Issue, Run, Database}
use nano_symphony.Tracker.Issues.Candidates.{run_allows}
use nano_symphony.Tracker.Runs.{get_run}
use nano_symphony.Worker.Env.{Env}
use nano_symphony.Worker.Override.{Report}
use nano_symphony.Worker.Settle.{Policy, settle, move_to_target, fall_back, fallback_state}
use nano_symphony.Worker.Settle.Guards.{issue_state, given_back, issue_state-move_to, abandon_view}
use nano_symphony.Worker.Settle.Run.{map-some, get_run-fall_back}
use nano_symphony.Worker.Settle.Verdict.{given_up, carry_out, settle-carry_out}

not_success : (s : String) → s ≡ "needs_retry" → (s ≢ "success") × (s ≢ "handoff")
not_success s e = ((λ f. differ (sym e ∙ f)), λ f. differ' (sym e ∙ f))
  where
    differ : ◌≢◌ {A = String} "needs_retry" "success"
    differ = ground (arith, eq_iff "needs_retry" "success")

    differ' : ◌≢◌ {A = String} "needs_retry" "handoff"
    differ' = ground (arith, eq_iff "needs_retry" "handoff")

allowed_again :
    (now : ℕ) (s t : String) (x : Run)
    → s ≢ t
    → run_allows now t (some (given_back "released" s x)) ≡ true
unfolding run_allows
allowed_again now s t x ne = ground (arith, eq_iff s t)

module _ (env : Env) (policy : Policy) (u : String) (attempt : ℕ) (issue : Issue) where
  issue_state-fall_back :
      (r : Report) (d : Database)
      → r.semantics ≡ "needs_retry"
      → issue_state u d ≡ some issue.state
      → issue_state u (fall_back env policy u attempt issue r none d)
        ≡ some (fallback_state policy.transitions)
  unfolding fall_back
  issue_state-fall_back r d e h =
      rw ((eq_iff _ _).1 e)
        (issue_state-move_to env u (fallback_state policy.transitions) issue d h)

  -- An attempt that asks for a retry when none is left, where the workflow names no state for needs_retry and
  -- the breaker is shut, moves its issue to the fallback state, but gives the run back with the state that the
  -- issue had before. Where the two differ, the run does not keep the issue from being started again at once.
  pub settle_exhausted :
      (r : Report) (d : Database) (x : Run)
      → r.semantics ≡ "needs_retry"
      → policy.max_retries ≤ attempt
      → get_run u d ≡ some x
      → issue_state u d ≡ some issue.state
      → issue.state ≢ fallback_state policy.transitions
      → let d' = (settle env policy u attempt issue r none false d).1 in
        (issue_state u d' ≡ some (fallback_state policy.transitions))
        × (get_run u d' ≡ some (given_back "released" issue.state x))
        × ((now : ℕ) → run_allows now (fallback_state policy.transitions) (get_run u d') ≡ true)
  unfolding carry_out move_to_target
  settle_exhausted r d x e max h state ne =
      let (no_success, no_handoff) = not_success r.semantics e in
      let back = fall_back env policy u attempt issue r none d in
      let view = abandon_view env policy u attempt issue r issue.state back in
      let run = view.0 ∙ map-some _ (get_run-fall_back env policy u attempt issue r none d ∙ h) in
      rw
        (settle-carry_out env policy u attempt issue r none false d
          (given_up no_success no_handoff refl (λ _. max)))
        (
          view.1 ∙ issue_state-fall_back r d e state,
          run,
          λ now. rw run (allowed_again now issue.state (fallback_state policy.transitions) x ne),
        )
