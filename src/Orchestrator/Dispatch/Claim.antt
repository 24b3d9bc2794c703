-- ===== src/Orchestrator/Dispatch/Claim.antt =====
-- The claim transaction of tick in src/orchestrator/index.ts, with claimIssue of src/db/tracker-
-- runs.ts.
use mathlib.Core.Option
use nano_symphony.Common.{
  ℕ, String, ◌≡◌, refl, sym, ap, ◌∙◌, subst, ◌↔◌, ◌⊎◌, inl, inr, Bool, true, false, Option, none,
  some, List, [], ◌∷◌, arith, ◌==◌, eq_refl, if◌then◌else◌, Option-cases, get_or, update_rows,
}
use nano_symphony.Tracker.Types.{Issue, Run, Database, run_key}
use nano_symphony.Tracker.Issues.{get_issue}
use nano_symphony.Tracker.Runs.{
  get_run, set_heartbeat_timeout, claim_issue, is_claimable, get_active_workspace_paths,
  active_paths, set_run,
}
use nano_symphony.Tracker.Runs.Laws.{
  get_run-set_heartbeat_timeout, claim_issue-free, claim_issue-held, IsFree,
}
use nano_symphony.Tracker.Runs.Claim.{Free-or-Held, held-not-IsFree}
use nano_symphony.Workspace.{resolve_workspace_path}
use nano_symphony.Orchestrator.Conflict.{WorkspaceConflict, find_workspace_conflict, first_conflict}
use nano_symphony.Orchestrator.Conflict.Laws.{IsFreeOfOthers, find_workspace_conflict-none_iff}
use nano_symphony.Orchestrator.Dispatch.{
  Job, Scheduler, conflict_of, conflict_if, override_of, try_claim, beaten,
}

abbrev timed : ℕ → Run → Run
timed ms r = record r { heartbeat_timeout_ms = ms }

active_paths-timed :
    (issues : List Issue) (u : String) (ms : ℕ) (rows : List Run)
    → active_paths issues (update_rows run_key u (timed ms) rows) ≡ active_paths issues rows
unfolding active_paths update_rows
active_paths-timed issues u ms [] = refl
active_paths-timed issues u ms (r ∷ rs) =
    row (r.issue_uuid == u) _ (active_paths-timed issues u ms rs)
  where
    row :
        (b : Bool) (rows : List Run)
        → active_paths issues rows ≡ active_paths issues rs
        → active_paths issues ((if b then timed ms r else r) ∷ rows) ≡ active_paths issues (r ∷ rs)
    row true rows e = ground (arith, e)
    row false rows e = ground (arith, e)

get_active_workspace_paths-timed :
    (u : String) (ms : ℕ) (d : Database)
    → get_active_workspace_paths (set_heartbeat_timeout u ms d) ≡ get_active_workspace_paths d
unfolding get_active_workspace_paths set_heartbeat_timeout set_run
get_active_workspace_paths-timed u ms d = active_paths-timed d.issues u ms d.runs

abbrev CanTake : Option Run → Type 0
CanTake o = (o ≡ none) ⊎ ((r : Run) × (o ≡ some r) × (is_claimable r ≡ true))

CanTake-timed : (ms : ℕ) (o : Option Run) → CanTake (Option.map (timed ms) o) ↔ CanTake o
CanTake-timed ms none = (λ h. h, λ h. h)
CanTake-timed ms (some r) = (
  λ h. inr (r, refl, holds (is_claimable r) (timed ms r) refl h),
  λ h. inr (timed ms r, refl, holds (is_claimable r) r refl h),
)
  where
    holds : (b : Bool) (x : Run) → is_claimable x ≡ b → CanTake (some x) → b ≡ true
    holds b x same (inl e) = cc
    holds b x same (inr (y, e, c)) = ground arith

module _ (s : Scheduler) where
  -- The issue names no directory, or no other issue's active run is in it.
  abbrev pub HasRoom : String → Database → Type 0
  HasRoom u d =
      (override : String)
      → override_of s u d ≡ some override
      → IsFreeOfOthers s.paths s.root u (resolve_workspace_path s.paths override s.root)
          (get_active_workspace_paths d)

  conflict_if-none :
      (u : String) (d : Database) (o : Option String)
      → (conflict_if s o u d ≡ none) ↔ (
          (override : String)
          → o ≡ some override
          → IsFreeOfOthers s.paths s.root u
              (resolve_workspace_path s.paths override s.root)
              (get_active_workspace_paths d))
  unfolding conflict_if
  conflict_if-none u d none = (λ h p e. absurd (none-some e), λ h. refl)
    where
      none-some : {p : String} → none ≡ some p → ⊥
      none-some e = cc
  conflict_if-none u d (some o) =
      let (to, from) = find_workspace_conflict-none_iff s.paths s.root u o d in
      (
        λ h p e.
            subst
              (λ x.
                IsFreeOfOthers s.paths s.root u (resolve_workspace_path s.paths x s.root)
                  (get_active_workspace_paths d))
              (ap (λ x. get_or x o) e) (to h),
        λ h. from (h o refl),
      )

  conflict_of-timed :
      (u : String) (ms : ℕ) (d : Database)
      → conflict_of s u (set_heartbeat_timeout u ms d) ≡ conflict_of s u d
  unfolding override_of get_issue set_heartbeat_timeout set_run conflict_if find_workspace_conflict
  conflict_of-timed u ms d = same (override_of s u d)
    where
      same :
          (o : Option String)
          → conflict_if s o u (set_heartbeat_timeout u ms d) ≡ conflict_if s o u d
      same none = refl
      same (some o) =
          ap (first_conflict s.paths s.root u _) (get_active_workspace_paths-timed u ms d)

  IsFree-timed :
      (u : String) (ms : ℕ) (d : Database) → IsFree u (set_heartbeat_timeout u ms d) ↔ IsFree u d
  IsFree-timed u ms d =
      subst (λ o. CanTake o ↔ IsFree u d)
        (sym (get_run-set_heartbeat_timeout u ms u d ∙ rw (eq_refl u) refl))
        (CanTake-timed ms (get_run u d))

  beaten-kept : (u : String) (p : Database × Bool) → (beaten s u p).1 ≡ p.1
  unfolding beaten
  beaten-kept u (d, true) = refl
  beaten-kept u (d, false) = refl

  claim_issue-wins :
      (u : String) (a now : ℕ) (d : Database) → ((claim_issue u a now d).1 ≡ true) ↔ IsFree u d
  claim_issue-wins u a now d = elim (Free-or-Held u d) [
    | inl free ↦ (λ h. free, λ h. (claim_issue-free u a now d free).0)
    | inr (r, e, c) ↦ (
      λ h. absurd (ne_of (ap (λ p. p.1) (claim_issue-held u a now d r e c)) h),
      λ free. absurd (held-not-IsFree u d r e c free),
    )
  ]
    where
      ne_of : {b : Bool} → b ≡ false → b ≡ true → ⊥
      ne_of e f = ground arith

  try_claim-clear :
      (job : Job) (d : Database)
      → let u = job.issue_uuid in
        let d1 = set_heartbeat_timeout u s.heartbeat_timeout_ms d in
        conflict_of s u d1 ≡ none
        → (try_claim s job d).1 ≡ (claim_issue u job.attempt s.env.now d1).1
  unfolding try_claim
  try_claim-clear job d e =
      rw (try_claim, e)
        (beaten-kept job.issue_uuid (
          claim_issue job.issue_uuid job.attempt s.env.now
            (set_heartbeat_timeout job.issue_uuid s.heartbeat_timeout_ms d)))

  try_claim-blocked :
      (job : Job) (d : Database) (c : WorkspaceConflict)
      → let u = job.issue_uuid in
        conflict_of s u (set_heartbeat_timeout u s.heartbeat_timeout_ms d) ≡ some c
        → (try_claim s job d).1 ≡ false
  unfolding try_claim
  try_claim-blocked job d c e = rw (try_claim, e) refl

  -- The claim of a job succeeds exactly where its issue has no run, or one that was released or waits for a
  -- retry, and no other issue's active run is in the directory that the issue names, if it names one.
  pub try_claim-wins_iff :
      (job : Job) (d : Database)
      → ((try_claim s job d).1 ≡ true) ↔ (IsFree job.issue_uuid d × HasRoom job.issue_uuid d)
  try_claim-wins_iff job d =
      let u = job.issue_uuid in
      let d1 = set_heartbeat_timeout u s.heartbeat_timeout_ms d in
      let (room, clear) = conflict_if-none u d (override_of s u d) in
      let (freed, free) = IsFree-timed u s.heartbeat_timeout_ms d in
      let (won, win) = claim_issue-wins u job.attempt s.env.now d1 in
      let timed = conflict_of-timed u s.heartbeat_timeout_ms d in
      elim (Option-cases (conflict_of s u d1)) [
        | inl e ↦ (
          λ h. (freed (won (sym (try_claim-clear job d e) ∙ h)), room (sym timed ∙ e)),
          λ (f, r). try_claim-clear job d e ∙ win (free f),
        )
        | inr (c, e) ↦ (
          λ h. absurd (differ (sym (try_claim-blocked job d c e) ∙ h)),
          λ (f, r). absurd (clash (sym e ∙ timed ∙ clear r)),
        )
      ]
    where
      differ : false ≡ true → ⊥
      differ e = cc

      clash : {c : WorkspaceConflict} → some c ≡ none → ⊥
      clash e = cc
