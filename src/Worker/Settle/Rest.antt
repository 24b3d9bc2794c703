-- ===== src/Worker/Settle/Rest.antt =====
-- Where the transaction of runWorker in src/orchestrator/worker.ts leaves the issue, for
-- getCandidates of src/db/tracker-issues.ts.
use mathlib.Core.Option
use nano_symphony.Common.{
  ℕ, String, ◌≡◌, refl, sym, ap, ◌∙◌, subst, ◌≢◌, inl, inr, Bool, true, false, ◌&&◌, Option, none,
  some, arith, ◌==◌, eq_iff, Bool-cases, get_or, key-find_row,
}
use nano_symphony.Tracker.Types.{Issue, Run, Database, issue_key}
use nano_symphony.Tracker.Issues.{get_issue}
use nano_symphony.Tracker.Issues.Candidates.{is_candidate, run_allows, is_open_state}
use nano_symphony.Tracker.Runs.{get_run}
use nano_symphony.Worker.Env.{Env}
use nano_symphony.Worker.Override.{Report}
use nano_symphony.Worker.Settle.{Policy, settle, move_to_target, fall_back}
use nano_symphony.Worker.Settle.Guards.{
  issue_state, given_back, issue_state-move_to, finish_success_view, finish_handoff_view,
  abandon_view,
}
use nano_symphony.Worker.Settle.Run.{map-some, get_run-move_to_target}
use nano_symphony.Worker.Settle.Verdict.{
  Verdict, accepted, handed_off, tried_again, broken, given_up, Verdict-of, carry_out,
  settle-carry_out,
}

state_of :
    (o : Option Issue) (i : Issue) (s : String)
    → o ≡ some i
    → Option.map {B = String} (λ i. i.state) o ≡ some s
    → i.state ≡ s
state_of none i s e h = cc
state_of (some j) i s e h = cc

stays :
    (now : ℕ) (s t : String) (y : Run)
    → t ≡ s
    → y.last_issue_state ≡ s
    → s ≢ ""
    → run_allows now t (some y) ≡ false
unfolding run_allows
stays now s t y e h ne = ground (arith, eq_iff y.last_issue_state "", eq_iff y.last_issue_state t)

-- An issue in the state in which its run was given back is not started.
pub same_state_rests :
    (u s : String) (d : Database) (y : Run)
    → get_run u d ≡ some y
    → y.last_issue_state ≡ s
    → issue_state u d ≡ some s
    → s ≢ ""
    → (now : ℕ) (i : Issue) → get_issue u d ≡ some i
    → is_candidate now d i ≡ false
unfolding is_candidate get_run get_issue
same_state_rests u s d y run last state ne now i issue =
    rw
      (
        key-find_row issue_key u d.issues i issue,
        run,
        stays now s i.state y (state_of (get_issue u d) i s issue state) last ne,
      )
      (and_false (is_open_state i.state))
  where
    and_false : (b : Bool) → (b && false) ≡ false
    and_false true = refl
    and_false false = refl

-- the issue is in a state, and its run was given back in the same one
abbrev pub IsAtRest : String → String → Database → Type 0
IsAtRest u s d =
    (y : Run) × (get_run u d ≡ some y) × (y.last_issue_state ≡ s) × (issue_state u d ≡ some s)

module _ (env : Env) (policy : Policy) (u : String) (attempt : ℕ) (issue : Issue) where
  issue_state-move_to_target :
      (target : Option String) (d : Database)
      → target ≢ some ""
      → issue_state u d ≡ some issue.state
      → issue_state u (move_to_target env policy u attempt issue target d)
        ≡ some (get_or target issue.state)
  unfolding move_to_target
  issue_state-move_to_target none d ne h = h
  issue_state-move_to_target (some s) d ne h = elim (Bool-cases (s == "")) [
    | inl e ↦ absurd (ne (ap some ((eq_iff _ _).0 e)))
    | inr e ↦ rw (e, move_to_target) (issue_state-move_to env u s issue d h)
  ]

  final_ne :
      (target : Option String)
      → target ≢ some ""
      → issue.state ≢ ""
      → get_or target issue.state ≢ ""
  final_ne none a b = b
  final_ne (some s) a b = λ e. a (ap some e)

  no_fall_back :
      (r : Report) (target : Option String) (d : Database)
      → r.semantics ≢ "needs_retry"
      → fall_back env policy u attempt issue r target d ≡ d
  unfolding fall_back
  no_fall_back r target d ne = ground (arith, eq_iff r.semantics "needs_retry")

  rests :
      (s : String) (d d' : Database) (x : Run) (run_state : String)
      → get_run u d ≡ some x
      → get_run u d' ≡ Option.map (given_back run_state s) (get_run u d)
      → issue_state u d' ≡ some s
      → IsAtRest u s d'
  rests s d d' x run_state h run state = (given_back run_state s x, run ∙ map-some _ h, refl, state)

  carry_out_rests :
      (r : Report) (target : Option String) (tripped : Bool) (v : Verdict policy attempt r tripped)
      (d : Database) (x : Run)
      → r.semantics ≢ "needs_retry"
      → tripped ≡ false
      → get_run u d ≡ some x
      → issue_state u d ≡ some (get_or target issue.state)
      → IsAtRest u (get_or target issue.state) (carry_out env policy u attempt issue r target v d).1
  unfolding carry_out
  carry_out_rests r target tripped (accepted e) d x n f h state =
      let view = finish_success_view env policy u attempt issue r (get_or target issue.state) d in
      rests _ d _ x _ h view.0 (view.1 ∙ state)
  carry_out_rests r target tripped (handed_off e) d x n f h state =
      let view = finish_handoff_view env policy u attempt issue r (get_or target issue.state) d in
      rests _ d _ x _ h view.0 (view.1 ∙ state)
  carry_out_rests r target tripped (tried_again e _ _) d x n f h state = absurd (n e)
  carry_out_rests r target tripped (broken _ _ e) d x n f h state = cc
  carry_out_rests r target tripped (given_up _ _ _ _) d x n f h state =
      let view = abandon_view env policy u attempt issue r (get_or target issue.state) d in
      rw (no_fall_back r target d n) (rests _ d _ x _ h view.0 (view.1 ∙ state))

  -- Where an attempt did not ask for a retry, its issue is left at rest: in the target state, or the state it
  -- was in where there is none, its run records this state as the one that the issue was left in, and at no
  -- time is the issue a candidate there. This supposes that the issue is
  -- still in the state that the worker read, and that neither it nor the target is the empty text.
  pub settle_rests :
      (r : Report) (target : Option String) (d : Database) (x : Run)
      → r.semantics ≢ "needs_retry"
      → get_run u d ≡ some x
      → issue_state u d ≡ some issue.state
      → issue.state ≢ ""
      → target ≢ some ""
      → (now : ℕ) (i : Issue)
      → get_issue u (settle env policy u attempt issue r target false d).1 ≡ some i
      → let d' = (settle env policy u attempt issue r target false d).1 in
        (i.state ≡ get_or target issue.state)
        × ((y : Run) × (get_run u d' ≡ some y) × (y.last_issue_state ≡ get_or target issue.state))
        × (is_candidate now d' i ≡ false)
  settle_rests r target d x n h state ne ne' now i found =
      let v = Verdict-of policy attempt r false in
      let (y, run, last, at) =
        subst (λ p. IsAtRest u (get_or target issue.state) p.1)
          (sym (settle-carry_out env policy u attempt issue r target false d v))
          (carry_out_rests r target false v (move_to_target env policy u attempt issue target d) x n
            refl (get_run-move_to_target env policy u attempt issue target d ∙ h)
            (issue_state-move_to_target target d ne' state)) in
      (
        state_of _ i _ found at,
        (y, run, last),
        same_state_rests u _ _ y run last at (final_ne target ne' ne) now i found,
      )
