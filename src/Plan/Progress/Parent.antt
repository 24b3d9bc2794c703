-- ===== src/Plan/Progress/Parent.antt =====
-- Which state src/orchestrator/plan-progress.ts leaves the caller of a plan run in.
use nano_symphony.Common.{
  ℕ, zero, suc, String, ◌≡◌, refl, ◌∙◌, ◌≢◌, ◌↔◌, ◌⊎◌, inl, inr, Bool, true, false, ◌&&◌, not, some,
  List, [], ◌∷◌, arith, ◌==◌, eq_iff, ltb, Bool-cases, one_of, length, all, All,
}
use nano_symphony.Tracker.Types.{Issue, PlanRun, PlanRunState, Database}
use nano_symphony.Tracker.Issues.{get_issue, list_issues_by_plan_run}
use nano_symphony.Tracker.PlanRuns.{state_text}
use nano_symphony.Worker.Env.{Env}
use nano_symphony.Worker.Settle.Guards.{issue_state}
use nano_symphony.Plan.Progress.{
  terminal_states, count_state, run_terminal, all_sub_terminal, sync_parent,
}
use nano_symphony.Plan.Progress.Laws.{synced_state}

-- The script of the plan run has ended, well or not, or was stopped.
abbrev pub IsOver : PlanRunState → Type 0
IsOver PlanRunState.done = Unit
IsOver PlanRunState.failed = Unit
IsOver PlanRunState.cancelled = Unit
IsOver _ = ⊥

-- An issue that nothing more happens to by itself.
abbrev pub IsClosed : String → Type 0
IsClosed s = (s ≡ "done") ⊎ (s ≡ "cancelled") ⊎ (s ≡ "blocked")

-- The plan run is over, it has sub-issues, all of them are closed, and the caller is not.
abbrev pub Moves : PlanRun → List Issue → Issue → Type 0
Moves run subs parent =
    IsOver run.state × (subs ≢ []) × All (λ i. IsClosed i.state) subs × ¬ IsClosed parent.state

-- The plan run ended well, and one of its sub-issues at least is done.
abbrev pub Succeeds : PlanRun → List Issue → Type 0
Succeeds run subs = (run.state ≡ PlanRunState.done) × ¬ All (λ i. i.state ≢ "done") subs

-- a test that says whether a proposition holds
abbrev Tests : Bool → Type 0 → Type 0
Tests b P = ((b ≡ true) × P) ⊎ ((b ≡ false) × ¬ P)

tests_of : {P : Type 0} (b : Bool) → (b ≡ true) ↔ P → Tests b P
tests_of true (to, from) = inl (refl, to refl)
tests_of false (to, from) = inr (refl, λ p. let bad = from p in cc)

IsClosed-iff : (s : String) → (one_of s terminal_states ≡ true) ↔ IsClosed s
IsClosed-iff s = (
  λ h. ground (arith, h, eq_iff s "done", eq_iff s "cancelled", eq_iff s "blocked"),
  λ h. ground (arith, h, eq_iff s "done", eq_iff s "cancelled", eq_iff s "blocked"),
)

all-IsClosed_iff :
    (subs : List Issue)
    → (all (λ i. one_of i.state terminal_states) subs ≡ true) ↔ All (λ i. IsClosed i.state) subs
all-IsClosed_iff [] = (λ h. tt, λ h. refl)
all-IsClosed_iff (i ∷ is) =
    let (to, from) = all-IsClosed_iff is in
    let (out, back) = IsClosed-iff i.state in
    (λ h. let (a, b) = both _ _ h in (out a, to b), λ h. both_true _ _ (back h.0) (from h.1))
  where
    both : (a b : Bool) → a && b ≡ true → (a ≡ true) × (b ≡ true)
    both true b h = (refl, h)
    both false b h = cc

    both_true : (a b : Bool) → a ≡ true → b ≡ true → a && b ≡ true
    both_true a b h k = rw (h, k) refl

IsOver-tests :
    (run : PlanRun) (s : PlanRunState) → run.state ≡ s → Tests (run_terminal run) (IsOver run.state)
IsOver-tests run PlanRunState.pending e = rw e (inr (refl, λ h. h))
IsOver-tests run PlanRunState.dry_running e = rw e (inr (refl, λ h. h))
IsOver-tests run PlanRunState.awaiting_approval e = rw e (inr (refl, λ h. h))
IsOver-tests run PlanRunState.running e = rw e (inr (refl, λ h. h))
IsOver-tests run PlanRunState.done e = rw e (inl (refl, tt))
IsOver-tests run PlanRunState.failed e = rw e (inl (refl, tt))
IsOver-tests run PlanRunState.cancelled e = rw e (inl (refl, tt))

ended_well : (s : PlanRunState) → Tests (state_text s == "done") (s ≡ PlanRunState.done)
ended_well PlanRunState.pending = inr (refl, λ h. cc)
ended_well PlanRunState.dry_running = inr (refl, λ h. cc)
ended_well PlanRunState.awaiting_approval = inr (refl, λ h. cc)
ended_well PlanRunState.running = inr (refl, λ h. cc)
ended_well PlanRunState.done = inl (refl, refl)
ended_well PlanRunState.failed = inr (refl, λ h. cc)
ended_well PlanRunState.cancelled = inr (refl, λ h. cc)

both_tests : {a b : Bool} {P Q : Type 0} → Tests a P → Tests b Q → Tests (a && b) (P × Q)
both_tests (inl (e, p)) (inl (f, q)) = rw (e, f) (inl (refl, (p, q)))
both_tests (inl (e, p)) (inr (f, nq)) = rw (e, f) (inr (refl, λ h. nq h.1))
both_tests (inr (e, np)) other = rw e (inr (refl, λ h. np h.0))

not_test : {a : Bool} {P : Type 0} → Tests a P → Tests (not a) (¬ P)
not_test (inl (e, p)) = rw e (inr (refl, λ np. np p))
not_test (inr (e, np)) = rw e (inl (refl, np))

through : {b : Bool} {P Q : Type 0} → P ↔ Q → Tests b P → Tests b Q
through (to, from) (inl (e, p)) = inl (e, to p)
through (to, from) (inr (e, np)) = inr (e, λ q. np (from q))

some_sub : (subs : List Issue) → Tests (ltb 0 (length subs)) (subs ≢ [])
some_sub [] = inr (refl, λ h. h refl)
some_sub (i ∷ is) = inl (ground arith, λ e. cc)

none_done : (subs : List Issue) → (count_state "done" subs ≡ 0) ↔ All (λ i. i.state ≢ "done") subs
none_done [] = (λ h. tt, λ h. refl)
none_done (i ∷ is) =
    let (to, from) = none_done is in
    elim (Bool-cases (i.state == "done")) [
      | inl e ↦
          rw e (λ h. absurd (omega (arith, h)), λ h. absurd (h.0 ((eq_iff i.state "done").0 e)))
      | inr e ↦
          rw e
            (λ h. ((λ same. ground (arith, e, eq_iff i.state "done", same)), to h), λ h. from h.1)
    ]

some_done :
    (subs : List Issue)
    → Tests (ltb 0 (count_state "done" subs)) (¬ All (λ i. i.state ≢ "done") subs)
some_done subs = positive (count_state "done" subs) (none_done subs)
  where
    positive : (n : ℕ) {P : Type 0} → (n ≡ 0) ↔ P → Tests (ltb 0 n) (¬ P)
    positive zero (to, from) = inr (ground arith, λ h. h (to refl))
    positive (suc n) (to, from) = inl (ground arith, λ p. omega (arith, from p))

Moves-tests :
    (run : PlanRun) (subs : List Issue) (parent : Issue)
    → Tests
        ((run_terminal run && all_sub_terminal subs) && not (one_of parent.state terminal_states))
        (Moves run subs parent)
Moves-tests run subs parent =
    through
      (
        (λ ((over, (there, closed)), opened). (over, there, closed, opened)),
        (λ (over, there, closed, opened). ((over, (there, closed)), opened)),
      )
      (both_tests
        (both_tests (IsOver-tests run run.state refl)
          (both_tests (some_sub subs) (tests_of _ (all-IsClosed_iff subs))))
        (not_test (tests_of _ (IsClosed-iff parent.state))))

Succeeds-tests :
    (run : PlanRun) (subs : List Issue)
    → Tests (state_text run.state == "done" && ltb 0 (count_state "done" subs)) (Succeeds run subs)
Succeeds-tests run subs = both_tests (ended_well run.state) (some_done subs)

-- A caller that is in the table: if its plan run is over and has sub-issues, which are all done, cancelled or
-- blocked, and it is itself none of these, it is moved, to done where the plan run is done and
-- so is at least one of the sub-issues, and else to cancelled. In all other cases it keeps its state.
pub issue_state-sync_parent :
    (percent_of : ℕ → ℕ → ℕ) (env : Env) (run : PlanRun) (parent : Issue) (d : Database)
    → get_issue parent.uuid d ≡ some parent
    → let subs = list_issues_by_plan_run run.id d in
      let after = issue_state parent.uuid (sync_parent percent_of env run parent d) in
      (Moves run subs parent × Succeeds run subs × (after ≡ some "done"))
      ⊎ (Moves run subs parent × (¬ Succeeds run subs) × (after ≡ some "cancelled"))
      ⊎ ((¬ Moves run subs parent) × (after ≡ some parent.state))
issue_state-sync_parent percent_of env run parent d found =
    let subs = list_issues_by_plan_run run.id d in
    let after = synced_state percent_of env run parent d found in
    elim (Moves-tests run subs parent) [
      | inl (moves, m) ↦ elim (Succeeds-tests run subs) [
        | inl (well, s) ↦ inl (m, s, after ∙ rw (moves, well) refl)
        | inr (ill, s) ↦ inr (inl (m, s, after ∙ rw (moves, ill) refl))
      ]
      | inr (stays, m) ↦ inr (inr (m, after ∙ rw stays refl))
    ]
