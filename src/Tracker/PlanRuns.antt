-- ===== src/Tracker/PlanRuns.antt =====
-- The operations on `plan_runs` of src/db/tracker-plan-runs.ts. Their nodes, their journal and
-- the usage report are not part of it.
use nano_symphony.Common.{
  ℕ, ◌+◌, String, Bool, true, false, ◌&&◌, ◌||◌, not, Option, none, some, List, [], ◌∷◌, ◌++◌, ◌==◌,
  ltb, get_or, is_text, one_of, take, keep, any, find_row, update_rows, sort_by,
}
use nano_symphony.Json.{Json, str, get}
use nano_symphony.Tracker.Types.{
  Issue, Event, PlanRun, PlanRunState, PlanRunApprovalStatus, Database, plan_run_key,
}

abbrev pub state_text : PlanRunState → String
state_text PlanRunState.pending = "pending"
state_text PlanRunState.dry_running = "dry_running"
state_text PlanRunState.awaiting_approval = "awaiting_approval"
state_text PlanRunState.running = "running"
state_text PlanRunState.done = "done"
state_text PlanRunState.failed = "failed"
state_text PlanRunState.cancelled = "cancelled"

abbrev pub is_state : PlanRunState → PlanRun → Bool
is_state s r = state_text r.state == state_text s

-- state IN ('done', 'cancelled', 'failed')
abbrev pub is_final : PlanRun → Bool
is_final r = one_of (state_text r.state) ("done" ∷ "cancelled" ∷ "failed" ∷ [])

abbrev pub wall_time_default_ms : ℕ
wall_time_default_ms = 604800000

-- the argument of `insertPlanRun`
pub record PlanRunInput : Type 0 where
  pub id : String
  pub caller_issue_uuid : Option String
  pub script : String
  pub meta : Json
  pub args : Option Json
  pub wall_time_ms : Option ℕ

unfoldable pub inserted_plan_run : PlanRunInput → ℕ → PlanRun
inserted_plan_run r now = record {
  id = r.id;
  caller_issue_uuid = r.caller_issue_uuid;
  script = r.script;
  meta = r.meta;
  args = r.args;
  state = PlanRunState.pending;
  dry_run_summary = none;
  approval_status = none;
  approval_reason = none;
  approved_at = none;
  approved_by = none;
  result = none;
  wall_time_ms = get_or r.wall_time_ms wall_time_default_ms;
  started_at = none;
  created_at = now;
  finished_at = none;
}

unfoldable pub insert_plan_run : PlanRunInput → ℕ → Database → Database
unfolding inserted_plan_run
insert_plan_run r now d = record d { plan_runs = d.plan_runs ++ inserted_plan_run r now ∷ [] }

unfoldable pub get_plan_run : String → Database → Option PlanRun
get_plan_run id d = find_row plan_run_key id d.plan_runs

unfoldable pub set_plan_run : String → (PlanRun → PlanRun) → Database → Database
set_plan_run id f d = record d { plan_runs = update_rows plan_run_key id f d.plan_runs }

unfoldable pub update_plan_run_state : String → PlanRunState → Database → Database
update_plan_run_state id s = set_plan_run id (λ r. record r { state = s })

unfoldable pub set_plan_run_dry_run_summary : String → Json → Database → Database
set_plan_run_dry_run_summary id summary = set_plan_run id (λ r. record r {
  state = PlanRunState.awaiting_approval;
  dry_run_summary = some summary;
  approval_status = some PlanRunApprovalStatus.pending;
})

unfoldable pub set_plan_run_running : String → ℕ → Database → Database
set_plan_run_running id now =
    set_plan_run id (λ r. record r { state = PlanRunState.running; started_at = some now })

-- `state` is done, failed or cancelled.
unfoldable pub finish_plan_run : String → PlanRunState → Option String → ℕ → Database → Database
finish_plan_run id s result now =
    set_plan_run id (λ r. record r { state = s; result = result; finished_at = some now })

unfoldable pub approve_plan_run : String → Option String → ℕ → Database → Database
approve_plan_run id approved_by now = set_plan_run id (λ r. record r {
  approval_status = some PlanRunApprovalStatus.approved;
  approved_at = some now;
  approved_by = some (get_or approved_by "operator");
})

unfoldable pub reject_plan_run : String → Option String → ℕ → Database → Database
reject_plan_run id reason now = set_plan_run id (λ r. record r {
  state = PlanRunState.cancelled;
  approval_status = some PlanRunApprovalStatus.rejected;
  approval_reason = reason;
  finished_at = some now;
})

unfoldable pub list_pending_plan_runs : Database → List PlanRun
list_pending_plan_runs d = keep (is_state PlanRunState.pending) d.plan_runs

unfoldable pub list_running_plan_runs : Database → List PlanRun
list_running_plan_runs d = keep (is_state PlanRunState.running) d.plan_runs

abbrev pub is_approved : Option PlanRunApprovalStatus → Bool
is_approved (some PlanRunApprovalStatus.approved) = true
is_approved _ = false

unfoldable pub list_approved_plan_runs : Database → List PlanRun
list_approved_plan_runs d =
    keep (λ r. is_state PlanRunState.awaiting_approval r && is_approved r.approval_status)
      d.plan_runs

-- JSON_EXTRACT(payload_json, '$.plan_run_id') = id, where the field is only ever a text
abbrev names_plan : String → Option Json → Bool
names_plan id none = false
names_plan id (some p) = is_text (nano_symphony.Json.get_text "plan_run_id" p) id

-- an event that the caller was resumed for this plan run
abbrev pub is_resume : String → String → Event → Bool
is_resume caller id e =
    e.issue_uuid == caller && (e.kind == "caller_resumed" && names_plan id e.payload_json)

-- a final plan run whose caller was not told yet
unfoldable pub awaits_resume : List Event → PlanRun → Bool
awaits_resume events r = elim r.caller_issue_uuid [
  | none ↦ false
  | some caller ↦ is_final r && not (any (is_resume caller r.id) events)
]

unfoldable pub list_finalized_plan_runs_with_caller : Database → List PlanRun
list_finalized_plan_runs_with_caller d = keep (awaits_resume d.events) d.plan_runs

-- `now` is not before the start.
abbrev pub is_expired : ℕ → PlanRun → Bool
is_expired now r =
    is_state PlanRunState.running r
    && elim r.started_at [ none ↦ false | some started ↦ ltb (started + r.wall_time_ms) now ]

unfoldable pub list_expired_running_plan_runs : ℕ → Database → List PlanRun
list_expired_running_plan_runs now d = keep (is_expired now) d.plan_runs

-- the newest first, and rows of one time in the reverse order of the table
abbrev newest_first : List PlanRun → List PlanRun
newest_first rs = mathlib.Core.List.reverse (sort_by (λ r. r.created_at) rs)

unfoldable pub list_plan_runs : Option PlanRunState → Option ℕ → Database → List PlanRun
list_plan_runs state limit d = elim state [
  | none ↦ take (get_or limit 100) (newest_first d.plan_runs)
  | some s ↦ take (get_or limit 100) (newest_first (keep (is_state s) d.plan_runs))
]

unfoldable pub list_plan_runs_by_caller : String → Database → List PlanRun
list_plan_runs_by_caller caller d =
    newest_first (keep (λ r. is_text r.caller_issue_uuid caller) d.plan_runs)

-- an open plan run, or one whose caller is not done or cancelled
abbrev has_open_caller : List Issue → Option String → Bool
has_open_caller issues none = false
has_open_caller issues (some caller) =
    any (λ i. i.uuid == caller && not (one_of i.state ("done" ∷ "cancelled" ∷ []))) issues

unfoldable pub list_plan_runs_needing_progress_sync : Database → List PlanRun
list_plan_runs_needing_progress_sync d =
    keep (λ r. not (is_final r) || has_open_caller d.issues r.caller_issue_uuid) d.plan_runs
