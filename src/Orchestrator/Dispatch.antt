-- ===== src/Orchestrator/Dispatch.antt =====
-- One tick's dispatch: tick of src/orchestrator/index.ts after the plan loops. The loops, which may write
-- to the database first, are not part of it; a started worker is a pair of an issue and an attempt.
pub mod Claim
pub mod Slots
use nano_symphony.Common.{
  ℕ, zero, suc, ◌+◌, ◌-◌, String, Bool, true, false, not, Option, none, some, List, [], ◌∷◌, ◌++◌,
  map, ◌==◌, nat_eq, if◌then◌else◌, length, take, keep, any,
}
use nano_symphony.Tracker.Types.{Issue, Run, Database}
use nano_symphony.Tracker.Runs.{
  fetch_due_retries, get_run, set_heartbeat_timeout, claim_issue, update_heartbeat,
}
use nano_symphony.Tracker.Issues.{get_issue}
use nano_symphony.Tracker.Issues.Candidates.{get_candidates}
use nano_symphony.Worker.Env.{Env}
use nano_symphony.Workspace.{Paths, trimmed}
use nano_symphony.Semaphore.{Semaphore, set_max, available, acquire}
use nano_symphony.Orchestrator.Conflict.{
  WorkspaceConflict, find_workspace_conflict, record_workspace_conflict_skipped,
}
use nano_symphony.Orchestrator.Stale.{release_stale_runs}

pub record Job : Type 0 where
  pub issue_uuid : String
  pub attempt : ℕ

-- `ctx` of the tick: the configuration and what the runtime answers
pub record Scheduler : Type 0 where
  pub env : Env
  pub paths : Paths
  pub root : Option String
  pub heartbeat_timeout_ms : ℕ
  pub cancel_agent : String → Bool

retry_job : Run → Job
retry_job r = record { issue_uuid = r.issue_uuid; attempt = r.next_attempt }

first_attempt : Option Run → ℕ
first_attempt none = 0
first_attempt (some r) = r.next_attempt + 1

candidate_job : Database → Issue → Job
candidate_job d i = record { issue_uuid = i.uuid; attempt = first_attempt (get_run i.uuid d) }

abbrev pub is_retried : List Run → Issue → Bool
is_retried retries i = any (λ r. r.issue_uuid == i.uuid) retries

candidates_for : ℕ → ℕ → Database → List Issue
candidates_for now zero d = []
candidates_for now (suc slots) d = get_candidates now (suc slots) d

-- the due retries, then the candidates, at most as many as there are slots
unfoldable pub to_dispatch : ℕ → ℕ → Database → List Job
unfolding retry_job candidate_job candidates_for first_attempt
to_dispatch now slots d =
    let retries = fetch_due_retries now d in
    take slots (
      map retry_job retries
      ++ map (candidate_job d)
          (keep (λ c. not (is_retried retries c)) (candidates_for now (slots - length retries) d)))

path_of : Option Issue → Option String
path_of none = none
path_of (some i) = i.workspace_path

module _ (s : Scheduler) where
  unfoldable pub beaten : String → Database × Bool → Database × Bool
  beaten u (d, true) = (update_heartbeat u s.env.now d, true)
  beaten u (d, false) = (d, false)

  -- `tracker.getIssue(issueUuid)?.workspace_path?.trim()`, where it is not empty
  unfoldable pub override_of : String → Database → Option String
  unfolding path_of
  override_of u d = trimmed s.paths (path_of (get_issue u d))

  unfoldable pub conflict_if : Option String → String → Database → Option WorkspaceConflict
  conflict_if none u d = none
  conflict_if (some override) u d = find_workspace_conflict s.paths s.root u override d

  -- the conflict that keeps the issue from being claimed
  abbrev pub conflict_of : String → Database → Option WorkspaceConflict
  conflict_of u d = conflict_if (override_of u d) u d

  -- The claim transaction, and the note of a conflict after it.
  unfoldable pub try_claim : Job → Database → Database × Bool
  unfolding beaten
  try_claim job d0 =
      let d = set_heartbeat_timeout job.issue_uuid s.heartbeat_timeout_ms d0 in
      elim (conflict_of job.issue_uuid d) [
        | some c ↦ (record_workspace_conflict_skipped s.env job.issue_uuid c d, false)
        | none ↦ beaten job.issue_uuid (claim_issue job.issue_uuid job.attempt s.env.now d)
      ]

  -- what the loop keeps: the database, the slots, the jobs whose workers run, and those that wait for a slot
  pub record Progress : Type 0 where
    pub database : Database
    pub slots : Semaphore
    pub started : List Job
    pub waiting : List Job

  unfoldable pub enlist : Job → Semaphore × Bool → Progress → Progress
  enlist job (sem, true) p = record p { slots = sem; started = p.started ++ job ∷ [] }
  enlist job (sem, false) p = record p { slots = sem; waiting = p.waiting ++ job ∷ [] }

  -- The waiter of a job is numbered by the jobs before it.
  unfoldable pub launch : Job → Database × Bool → Progress → Progress
  unfolding enlist
  launch job (d, false) p = record p { database = d }
  launch job (d, true) p =
      enlist job (acquire (length p.started + length p.waiting) p.slots) (record p { database = d })

  unfoldable pub dispatch : Job → Progress → Progress
  unfolding launch
  dispatch job p = launch job (try_claim job p.database) p

  unfoldable pub dispatch_all : List Job → Progress → Progress
  dispatch_all [] p = p
  dispatch_all (job ∷ jobs) p = dispatch_all jobs (dispatch job p)

  unfoldable pub tick : ℕ → Semaphore → Database → Progress
  unfolding dispatch_all
  tick max_concurrent sem0 d =
      let sem = set_max max_concurrent sem0 in
      let jobs = to_dispatch s.env.now (available sem) d in
      if nat_eq (available sem) 0
      then record { database = d; slots = sem; started = []; waiting = [] }
      else dispatch_all jobs (record {
        database = release_stale_runs s.env s.cancel_agent s.heartbeat_timeout_ms d;
        slots = sem;
        started = [];
        waiting = [];
      })
