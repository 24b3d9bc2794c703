-- ===== src/Orchestrator/Stale.antt =====
-- Runs whose worker has gone silent: the release of stale runs in tick of src/orchestrator/index.ts. What
-- cancelAgent answers for an issue is an argument.
pub mod Laws
use nano_symphony.Common.{
  ℕ, ◌-◌, String, Bool, ◌||◌, Option, none, some, List, [], ◌∷◌, ◌==◌, if◌then◌else◌, concat,
  show_nat,
}
use nano_symphony.Json.{Json, null, bool, whole, object}
use nano_symphony.Tracker.Types.{Issue, Run, Database}
use nano_symphony.Tracker.Runs.{release_issue, fetch_stale_runs}
use nano_symphony.Tracker.Issues.{get_issue, update_issue_state}
use nano_symphony.Worker.Env.{Env, log_event}

abbrev attempt_json : Option ℕ → Json
attempt_json none = null
attempt_json (some a) = whole a

abbrev attempt_text : Option ℕ → String
attempt_text none = "null"
attempt_text (some a) = show_nat a

-- back to the queue, where the issue was being worked on or waited for its plan
unfoldable pub requeue : Env → String → Option Issue → Database → Database
requeue env u none d = d
requeue env u (some i) d =
    if i.state == "in_progress" || i.state == "awaiting_plan"
    then update_issue_state env.now u "todo" d
    else d

unfoldable pub release_stale : Env → (String → Bool) → Run → Database → Database
release_stale env cancel r d0 =
    let d =
      log_event env r.issue_uuid "stale_run_detected"
        (concat (
          "Run claimed for "
          ∷ attempt_text r.current_attempt
          ∷ " turns was abandoned (no heartbeat)"
          ∷ []))
        (some (
          object (
            ("attempt", attempt_json r.current_attempt)
            ∷ ("agent_killed", bool (cancel r.issue_uuid))
            ∷ [])))
        (release_issue r.issue_uuid "released" d0) in
    requeue env r.issue_uuid (get_issue r.issue_uuid d) d

unfoldable pub release_all : Env → (String → Bool) → List Run → Database → Database
release_all env cancel [] d = d
release_all env cancel (r ∷ rs) d = release_all env cancel rs (release_stale env cancel r d)

-- `Date.now() - AGENT_HEARTBEAT_TIMEOUT_MS`, of a clock that has run for longer
unfoldable pub release_stale_runs : Env → (String → Bool) → ℕ → Database → Database
release_stale_runs env cancel timeout_ms d =
    release_all env cancel (fetch_stale_runs (env.now - timeout_ms) d) d
