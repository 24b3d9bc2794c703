-- ===== src/Orchestrator/Conflict.antt =====
-- Mutual exclusion of external workspaces: findWorkspaceConflict and recordWorkspaceConflictSkipped of
-- src/orchestrator/index.ts.
pub mod Laws
pub mod Unused
use nano_symphony.Common.{
  ℕ, ◌+◌, String, Bool, false, ◌&&◌, not, Option, none, some, List, [], ◌∷◌, ◌==◌, ltb,
  if◌then◌else◌, or_else, is_text, concat,
}
use nano_symphony.Json.{str, get_text, object}
use nano_symphony.Tracker.Types.{Event, Database}
use nano_symphony.Tracker.Runs.{ActiveWorkspacePath, get_active_workspace_paths}
use nano_symphony.Tracker.Events.{get_latest_event_by_kind}
use nano_symphony.Worker.Env.{Env, log_event}
use nano_symphony.Workspace.{Paths, trimmed, resolve_workspace_path}

pub record WorkspaceConflict : Type 0 where
  pub workspace_path : String
  pub conflicting_issue_uuid : String

module _ (paths : Paths) (root : Option String) where
  resolved_if_set : Option String → Option String → Option String
  resolved_if_set (some path) (some _) = some (resolve_workspace_path paths path root)
  resolved_if_set _ _ = none

  -- the directory that an active run holds, where one is known
  unfoldable pub active_path : ActiveWorkspacePath → Option String
  unfolding resolved_if_set
  active_path a =
      or_else a.run_workspace_path
        (resolved_if_set a.issue_workspace_path (trimmed paths a.issue_workspace_path))

  -- whether the entry is another issue's, in the target directory
  abbrev pub is_conflict : String → String → ActiveWorkspacePath → Bool
  is_conflict issue_uuid target a =
      not (a.issue_uuid == issue_uuid) && is_text (active_path a) target

  unfoldable pub first_conflict :
      String → String → List ActiveWorkspacePath → Option WorkspaceConflict
  first_conflict issue_uuid target [] = none
  first_conflict issue_uuid target (a ∷ rest) =
      if is_conflict issue_uuid target a
      then some (record { workspace_path = target; conflicting_issue_uuid = a.issue_uuid })
      else first_conflict issue_uuid target rest

  unfoldable pub find_workspace_conflict : String → String → Database → Option WorkspaceConflict
  unfolding first_conflict
  find_workspace_conflict issue_uuid override d =
      first_conflict issue_uuid (resolve_workspace_path paths override root)
        (get_active_workspace_paths d)

-- The last event is under a minute old and names the same other issue.
unfoldable pub is_throttled : ℕ → Option Event → WorkspaceConflict → Bool
is_throttled now none c = false
is_throttled now (some e) c = ltb now (e.ts + 60000) && elim e.payload_json [
  | none ↦ false
  | some p ↦ is_text (get_text "conflicting_issue_uuid" p) c.conflicting_issue_uuid
]

unfoldable pub record_workspace_conflict_skipped :
    Env → String → WorkspaceConflict → Database → Database
record_workspace_conflict_skipped env u c d =
    if is_throttled env.now (get_latest_event_by_kind u "workspace_conflict_skipped" d) c
    then d
    else log_event env u "workspace_conflict_skipped"
        (concat (
          "Dispatch deferred: workspace " ∷ c.workspace_path ∷ " is in use by issue "
          ∷ c.conflicting_issue_uuid ∷ []))
        (some (
          object (
            ("workspace_path", str c.workspace_path)
            ∷ ("conflicting_issue_uuid", str c.conflicting_issue_uuid)
            ∷ [])))
        d
