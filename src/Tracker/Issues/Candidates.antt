-- ===== src/Tracker/Issues/Candidates.antt =====
-- The issues that the scheduler may start: getCandidates of src/db/tracker-issues.ts, with
-- src/db/wait-states.ts. Rows that the query leaves in either order keep the order of the table.
use nano_symphony.Common.{
  ℕ, String, Bool, true, ◌&&◌, ◌||◌, not, Option, none, some, List, [], ◌∷◌, ◌==◌, if◌then◌else◌,
  one_of, take, keep, any, find_row, sort_by,
}
use nano_symphony.Tracker.Types.{Issue, Run, Blocker, Database, run_key}
use nano_symphony.Tracker.Runs.{is_claimable, is_due}

abbrev pub wait_states : List String
wait_states = "awaiting_plan" ∷ "blocked" ∷ []

abbrev pub closed_states : List String
closed_states = "done" ∷ "cancelled" ∷ "backlog" ∷ "plan_review" ∷ []

abbrev pub is_open_state : String → Bool
is_open_state s = not (one_of s closed_states || one_of s wait_states)

-- the run may be taken up, and the issue has moved since it was last worked on
abbrev pub is_ready_run : String → Run → Bool
is_ready_run state r =
    is_claimable r && (r.last_issue_state == "" || not (r.last_issue_state == state))

-- last_state != 'retry_queued' OR next_due_ts IS NULL OR next_due_ts <= now
abbrev pub is_due_run : ℕ → Run → Bool
is_due_run now r = not (r.last_state == "retry_queued") || is_due now r.next_due_ts

-- the conditions on the run of the issue, which may be missing
unfoldable pub run_allows : ℕ → String → Option Run → Bool
run_allows now state none = true
run_allows now state (some r) = is_ready_run state r && is_due_run now r

-- a blocker that is not done or cancelled
abbrev pub blocks : String → Blocker → Bool
blocks uuid b = b.issue_uuid == uuid && not (one_of b.blocker_state ("done" ∷ "cancelled" ∷ []))

unfoldable pub is_candidate : ℕ → Database → Issue → Bool
is_candidate now d i =
    is_open_state i.state
    && (run_allows now i.state (find_row run_key i.uuid d.runs)
        && not (any (blocks i.uuid) d.blockers))

unfoldable pub priority_rank : String → ℕ
priority_rank p =
    if p == "urgent"
    then 1
    else if p == "high"
    then 2
    else if p == "medium"
    then 3
    else if p == "low"
    then 4
    else 5

abbrev pub rank : Issue → ℕ
rank i = priority_rank i.priority

abbrev pub age : Issue → ℕ
age i = i.created_at

unfoldable pub get_candidates : ℕ → ℕ → Database → List Issue
get_candidates now limit d =
    take limit (sort_by rank (sort_by age (keep (is_candidate now d) d.issues)))
