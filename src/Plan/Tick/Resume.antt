-- ===== src/Plan/Tick/Resume.antt =====
-- What a caller is resumed into by tickFinalizedPlans of src/orchestrator/plan-tick.ts.
use nano_symphony.Common.{
  ℕ, String, ◌≡◌, refl, ap, ◌∙◌, ◌≢◌, false, Option, none, some, [], arith, eq_iff, eq_refl,
}
use nano_symphony.Json.{Json}
use nano_symphony.Tracker.Types.{Issue, Run, PlanRun, Database}
use nano_symphony.Tracker.Issues.{
  get_issue, update_issue_plan_run_id, update_issue_state, set_issue,
}
use nano_symphony.Tracker.Issues.Laws.{get_issue-update_issue_plan_run_id}
use nano_symphony.Tracker.Issues.Candidates.{is_candidate}
use nano_symphony.Tracker.Runs.{
  get_run, update_last_issue_state, is_claimable, claim_issue, set_run,
}
use nano_symphony.Tracker.Runs.Laws.{get_run-update_last_issue_state, claim_issue-held}
use nano_symphony.Tracker.Events.{record_event}
use nano_symphony.Worker.Env.{Env, log_event}
use nano_symphony.Worker.Settle.Guards.{issue_state, issue_state-update_issue_state}
use nano_symphony.Worker.Settle.Verdict.{text_false}
use nano_symphony.Worker.Settle.Rest.{same_state_rests}
use nano_symphony.Plan.Tick.{reopen, resume_caller, resume_issue, finalized, told}

-- the run after the resume
abbrev pub renoted : Run → Run
renoted y = record y { last_issue_state = "todo" }

module _ (env : Env) (r : PlanRun) (u : String) where
  -- the database before the last write
  abbrev unlinked : Database → Database
  unlinked d =
      update_issue_plan_run_id env.now u none
        (log_event env u "caller_resumed" (finalized r []) (told r []) d)

  get_run-unlinked :
      (d : Database) → get_run u (update_issue_state env.now u "todo" (unlinked d)) ≡ get_run u d
  unfolding get_run update_issue_state update_issue_plan_run_id set_issue log_event record_event
  get_run-unlinked d = refl

  get_run-reopen :
      (d : Database) (y : Run)
      → get_run u d ≡ some y
      → get_run u (reopen env r u d) ≡ some (renoted y)
  unfolding reopen finalized told
  get_run-reopen d y h =
      get_run-update_last_issue_state u "todo" u (update_issue_state env.now u "todo" (unlinked d))
      ∙ rw (eq_refl u, get_run-unlinked d, h) refl

  get_issue-log_event :
      (k m : String) (p : Option Json) (d : Database)
      → get_issue u (log_event env u k m p d) ≡ get_issue u d
  unfolding get_issue log_event record_event
  get_issue-log_event k m p d = refl

  issue_state-noted :
      (s : String) (d : Database) → issue_state u (update_last_issue_state u s d) ≡ issue_state u d
  unfolding get_issue update_last_issue_state set_run
  issue_state-noted s d = refl

  issue_state-reopen :
      (d : Database) (i : Issue)
      → get_issue u d ≡ some i
      → issue_state u (reopen env r u d) ≡ some "todo"
  unfolding reopen finalized told
  issue_state-reopen d i h =
      issue_state-noted "todo" (update_issue_state env.now u "todo" (unlinked d))
      ∙ issue_state-update_issue_state env.now u "todo" i.state (unlinked d) (
          rw
            (
              get_issue-update_issue_plan_run_id env.now u none u
                  (log_event env u "caller_resumed" (finalized r []) (told r []) d),
              eq_refl u,
              get_issue-log_event "caller_resumed" (finalized r []) (told r []) d,
              h,
            )
            refl)

  resume_caller-reopen :
      (d : Database) (i : Issue)
      → r.caller_issue_uuid ≡ some u
      → u ≢ ""
      → get_issue u d ≡ some i
      → i.state ≢ "done"
      → i.state ≢ "cancelled"
      → resume_caller env r d ≡ reopen env r u d
  unfolding resume_caller resume_issue reopen
  resume_caller-reopen d i e ne h a b =
      rw
        (
          resume_caller,
          e,
          text_false u "" ne,
          h,
          text_false i.state "done" a,
          text_false i.state "cancelled" b,
        )
        refl

  -- A caller that is resumed after its plan run is put into todo, and its run, whichever it is, is noted to have
  -- been left in todo as well; so the issue is no candidate of the candidate query at any time, and a claim
  -- of a run that is neither released nor queued for a retry fails.
  pub resume_caller-stuck :
      (d : Database) (i : Issue) (y : Run)
      → r.caller_issue_uuid ≡ some u
      → u ≢ ""
      → get_issue u d ≡ some i
      → i.state ≢ "done"
      → i.state ≢ "cancelled"
      → get_run u d ≡ some y
      → let d' = resume_caller env r d in
        (issue_state u d' ≡ some "todo")
        × ((now : ℕ) (j : Issue) → get_issue u d' ≡ some j → is_candidate now d' j ≡ false)
        × (is_claimable y ≡ false → (a now : ℕ) → (claim_issue u a now d').1 ≡ false)
  resume_caller-stuck d i y e ne h a b run =
      let at = issue_state-reopen d i h in
      let run' = get_run-reopen d y run in
      rw (resume_caller-reopen d i e ne h a b) (
        at,
        same_state_rests u "todo" (reopen env r u d) (renoted y) run' refl at todo_ne,
        λ c a' now. ap (λ p. p.1) (claim_issue-held u a' now (reopen env r u d) (renoted y) run' c),
      )
    where
      todo_ne : ◌≢◌ {A = String} "todo" ""
      todo_ne = ground (arith, eq_iff "todo" "")
