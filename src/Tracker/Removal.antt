-- ===== src/Tracker/Removal.antt =====
-- `deleteIssue` of src/db/tracker-issues.ts, which removes an issue from every table.
pub mod Laws
use nano_symphony.Common.{
  String, Bool, true, false, Option, none, some, ◌==◌, if◌then◌else◌, find_row, delete_rows,
}
use nano_symphony.Tracker.Types.{
  Label, Blocker, Run, Event, LlmCall, IssueResult, Comment, Database, issue_key, run_key,
}
use nano_symphony.Tracker.Artifacts.{artifact_issue}
use nano_symphony.Tracker.Metrics.{metrics_key}

pub record RunWorkspace : Type 0 where
  pub path : String
  pub managed : Bool

abbrev workspace_of : Option Run → Option RunWorkspace
workspace_of none = none
workspace_of (some r) =
    if r.workspace_path == ""
    then none
    else some (record { path = r.workspace_path; managed = r.workspace_managed })

abbrev pub label_issue : Label → String
label_issue l = l.issue_uuid

abbrev pub blocked_issue : Blocker → String
blocked_issue b = b.issue_uuid

abbrev pub blocking_issue : Blocker → String
blocking_issue b = b.blocker_uuid

abbrev pub event_issue : Event → String
event_issue e = e.issue_uuid

abbrev pub call_issue : LlmCall → String
call_issue c = c.issue_uuid

abbrev pub result_issue : IssueResult → String
result_issue r = r.issue_uuid

abbrev pub comment_issue : Comment → String
comment_issue c = c.issue_uuid

-- the transaction `deleteAll`
unfoldable pub delete_all : String → Database → Database
delete_all uuid d = record d {
  labels = delete_rows label_issue uuid d.labels;
  blockers = delete_rows blocking_issue uuid (delete_rows blocked_issue uuid d.blockers);
  events = delete_rows event_issue uuid d.events;
  comments = delete_rows comment_issue uuid d.comments;
  artifacts = delete_rows artifact_issue uuid d.artifacts;
  results = delete_rows result_issue uuid d.results;
  llm_calls = delete_rows call_issue uuid d.llm_calls;
  metrics = delete_rows metrics_key uuid d.metrics;
  runs = delete_rows run_key uuid d.runs;
  issues = delete_rows issue_key uuid d.issues;
}

-- what `deleteIssue` returns: whether it deleted, and the workspace of the run
pub record Deletion : Type 0 where
  pub deleted : Bool
  pub workspace : Option RunWorkspace

unfoldable pub delete_issue : String → Database → Database × Deletion
unfolding delete_all
delete_issue uuid d = elim (find_row issue_key uuid d.issues) [
  | none ↦ (d, record { deleted = false; workspace = none })
  | some i ↦ (
    delete_all uuid d,
    record { deleted = true; workspace = workspace_of (find_row run_key uuid d.runs) },
  )
]
