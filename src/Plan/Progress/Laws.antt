-- ===== src/Plan/Progress/Laws.antt =====
-- What src/orchestrator/plan-progress.ts does to the caller of a plan run.
use mathlib.Core.Option
use nano_symphony.Common.{
  ℕ, suc, ◌+◌, ◌≤◌, ◌<◌, String, ◌≡◌, refl, sym, ap, ◌∙◌, ◌↔◌, inl, inr, Bool, true, false, ◌&&◌,
  not, some, List, [], ◌∷◌, arith, ◌==◌, eq_iff, eq_refl, if◌then◌else◌, ltb→lt, lt→ltb, Bool-cases,
  one_of, length, keep, length-keep, all, find_row, find_row-update_rows,
}
use nano_symphony.Tracker.Types.{Issue, PlanRun, Database, issue_key}
use nano_symphony.Tracker.Issues.{
  get_issue, update_issue_state, update_issue_plan_progress, set_issue, list_issues_by_plan_run,
}
use nano_symphony.Tracker.Events.{record_event}
use nano_symphony.Tracker.Runs.{update_last_issue_state}
use nano_symphony.Plan.Dag.Counts.{one_if}
use nano_symphony.Worker.Env.{Env, log_event}
use nano_symphony.Worker.Settle.Guards.{issue_state}
use nano_symphony.Plan.Progress.{
  terminal_states, count_state, progress_of, progress_json, run_terminal, all_sub_terminal,
  parent_state, complete_parent, sync_parent,
}

length-keep-cons {ℓ} :
    {A : Type ℓ} (p : A → Bool) (x : A) (xs : List A)
    → length (keep p (x ∷ xs)) ≡ one_if (p x) + length (keep p xs)
length-keep-cons p x xs = elim (Bool-cases (p x)) [
  | inl e ↦ rw e (omega arith)
  | inr e ↦ rw e (omega arith)
]

-- A state is at most one of the three.
one_state :
    (t : String)
    → one_if (t == "done") + one_if (t == "cancelled") + one_if (t == "blocked")
      ≡ one_if (one_of t terminal_states)
one_state t = elim (Bool-cases (t == "done")) [
  | inl a ↦ rw ((eq_iff t "done").0 a) refl
  | inr a ↦ elim (Bool-cases (t == "cancelled")) [
    | inl b ↦ rw ((eq_iff t "cancelled").0 b) refl
    | inr b ↦ elim (Bool-cases (t == "blocked")) [
      | inl c ↦ rw ((eq_iff t "blocked").0 c) refl
      | inr c ↦ ground (arith, a, b, c)
    ]
  ]
]

closed : List Issue → ℕ
closed is = length (keep (λ (i : Issue). one_of i.state terminal_states) is)

closed-sum :
    (is : List Issue)
    → count_state "done" is + count_state "cancelled" is + count_state "blocked" is ≡ closed is
unfolding closed
closed-sum [] = omega arith
closed-sum (i ∷ is) = omega (
  arith,
  length-keep-cons (λ (j : Issue). j.state == "done") i is,
  length-keep-cons (λ (j : Issue). j.state == "cancelled") i is,
  length-keep-cons (λ (j : Issue). j.state == "blocked") i is,
  length-keep-cons (λ (j : Issue). one_of j.state terminal_states) i is,
  one_state i.state,
  closed-sum is,
)

all-closed :
    (is : List Issue)
    → (all (λ i. one_of i.state terminal_states) is ≡ true) ↔ (closed is ≡ length is)
unfolding closed
all-closed [] = ((λ _. refl), (λ _. refl))
all-closed (i ∷ is) = elim (Bool-cases (one_of i.state terminal_states)) [
  | inl e ↦ rw e ((λ h. ap suc ((all-closed is).0 h)), (λ h. (all-closed is).1 (omega (arith, h))))
  | inr e ↦
      let le = length-keep (λ (j : Issue). one_of j.state terminal_states) is in
      rw e ((λ h. ground arith), (λ h. absurd (omega (arith, h, le))))
]

-- The counts in the progress of a caller are enough to see whether all of its sub-issues are closed: those done,
-- cancelled and blocked are together at most the total, and they are the total, of at least one, exactly when the
-- code finds every sub-issue closed.
pub progress_of-all_sub_terminal :
    (percent_of : ℕ → ℕ → ℕ) (now : ℕ) (run : PlanRun) (subs : List Issue)
    → let p = progress_of percent_of now run subs in
      (p.done + p.cancelled + p.blocked ≤ p.total)
      × ((all_sub_terminal subs ≡ true)
          ↔ ((0 < p.total) × (p.done + p.cancelled + p.blocked ≡ p.total)))
unfolding progress_of closed
progress_of-all_sub_terminal percent_of now run subs =
    let sum = closed-sum subs in
    let le = length-keep (λ (i : Issue). one_of i.state terminal_states) subs in
    let same = all-closed subs in
    (
      omega (arith, sum, le),
      (
        (λ h. let parts = both _ _ h in (ltb→lt 0 (length subs) parts.0, sum ∙ same.0 parts.1)),
        (λ h. both_true _ _ (lt→ltb 0 (length subs) h.0) (same.1 (sym sum ∙ h.1))),
      ),
    )
  where
    both : (a b : Bool) → a && b ≡ true → (a ≡ true) × (b ≡ true)
    both true true h = (refl, refl)
    both true false h = cc
    both false b h = cc

    both_true : (a b : Bool) → a ≡ true → b ≡ true → a && b ≡ true
    both_true a b h k = rw (h, k) refl

-- the parent's state after its progress is written
get_issue-set_issue :
    (uuid : String) (f : Issue → Issue) (d : Database) (i : Issue)
    → ((j : Issue) → issue_key (f j) ≡ issue_key j)
    → get_issue uuid d ≡ some i
    → get_issue uuid (set_issue uuid f d) ≡ some (f i)
unfolding get_issue set_issue
get_issue-set_issue uuid f d i same found =
    find_row-update_rows issue_key uuid uuid f same d.issues
    ∙ ap
        (λ b.
          if b
          then Option.map f (find_row issue_key uuid d.issues)
          else find_row issue_key uuid d.issues)
        (eq_refl uuid)
    ∙ ap (Option.map f) found

pick :
    (u : String) (t : Bool) (moved kept : Database) (s s' : String)
    → issue_state u moved ≡ some s
    → issue_state u kept ≡ some s'
    → issue_state u (if t then moved else kept) ≡ some (if t then s else s')
pick u true moved kept s s' h k = h
pick u false moved kept s s' h k = k

-- the state of the caller, in terms of the tests of the code
pub synced_state :
    (percent_of : ℕ → ℕ → ℕ) (env : Env) (run : PlanRun) (parent : Issue) (d : Database)
    → get_issue parent.uuid d ≡ some parent
    → let subs = list_issues_by_plan_run run.id d in
      issue_state parent.uuid (sync_parent percent_of env run parent d)
      ≡ some (
          if (run_terminal run && all_sub_terminal subs)
            && not (one_of parent.state terminal_states)
          then parent_state run (count_state "done" subs)
          else parent.state)
unfolding sync_parent complete_parent progress_of get_issue set_issue update_issue_plan_progress
    update_issue_state update_last_issue_state log_event record_event
synced_state percent_of env run parent d found =
    let subs = list_issues_by_plan_run run.id d in
    let p = progress_of percent_of env.now run subs in
    let noted = update_issue_plan_progress env.now parent.uuid (progress_json p) d in
    let progressed = get_issue-set_issue parent.uuid _ d parent (λ j. refl) found in
    pick parent.uuid _ _ noted _ _
      (ap (Option.map (λ i. i.state))
        (get_issue-set_issue parent.uuid _ noted _ (λ j. refl) progressed))
      (ap (Option.map (λ i. i.state)) progressed)
