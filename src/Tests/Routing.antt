-- ===== src/Tests/Routing.antt =====
-- Routes that an operator calls, at concrete bodies.

use nano_symphony.Common.{
  ℕ, String, ◌≡◌, ◌⊎◌, refl, ◌≢◌, true, false, none, some, [], ◌∷◌, ◌==◌, if◌then◌else◌, find_row,
}
use nano_symphony.Tracker.Types.{Issue, Run, Database}
use nano_symphony.Tracker.Issues.{get_issue}
use nano_symphony.Tracker.Issues.Candidates.{is_candidate}
use nano_symphony.Tracker.Runs.{get_run}
use nano_symphony.Tracker.Isolation.{view}
use nano_symphony.Tracker.Removal.{delete_issue}
use nano_symphony.Tracker.Removal.Laws.{Forgotten, without, delete_issue-Forgotten}
use nano_symphony.Worker.Settle.Guards.{issue_state}
use nano_symphony.Mcp.Tools.States.{state_of}
use nano_symphony.Http.Issues.{IssueUpdate, ChangeRequest, update_route, request_changes}
use nano_symphony.Http.Issues.Laws.{
  request_changes-stuck, get_issue-update_route, IsTaken, Detached,
}
use nano_symphony.Http.Issues.Retrigger.{Notes, Retrigger, retrigger_route}
use nano_symphony.Http.Issues.Retriggering.{retrigger_route-is_candidate}
use nano_symphony.Http.Comments.{Command, approve, plain, CommentInput, comment_route}
use nano_symphony.Http.Comments.Laws.{Moves, comment_route-Moves}
use nano_symphony.Tests.Samples.{sample_env, issue_of, run_of, tables}

abbrev reviewed : Issue
reviewed = record (issue_of "a" "in_review" "high") {
  plan_run_id = some "p";
  scratchpad = some "s";
}

abbrev left : Run
left = run_of "a" "released" "in_review"

-- an issue that awaits its review
abbrev review : Database
review = tables (reviewed ∷ []) (left ∷ [])

abbrev request : ChangeRequest
request = record { note = "again"; feedback = none }

request_changes-stuck_example :
    let d' = (request_changes sample_env "a" (some request) review).database in
    (issue_state "a" d' ≡ some "todo")
    × ((now : ℕ) (i' : Issue) → get_issue "a" d' ≡ some i' → is_candidate now d' i' ≡ false)
unfolding get_issue get_run find_row
request_changes-stuck_example =
    request_changes-stuck sample_env "a" request review reviewed left refl refl

abbrev new_title : IssueUpdate
new_title = record {
  identifier = none;
  title = some "new";
  description = none;
  priority = none;
  state = none;
  branch = none;
  url = none;
  workspace_path = none;
  agent_kind = none;
  agent_binary = none;
  agent_role = none;
  require_plan = none;
  cost_budget_usd = none;
  token_budget = none;
  labels = none;
}

get_issue-update_route_example :
    let r = update_route sample_env "a" (some new_title) review in
    ((r.status ≡ 500) × (r.database ≡ review) × IsTaken "a" none review)
    ⊎ ((r.status ≡ 200)
        × ((i' : Issue) × (get_issue "a" r.database ≡ some i') × Detached i' "in_review"))
unfolding get_issue find_row
get_issue-update_route_example =
    get_issue-update_route sample_env "a" new_title review reviewed refl

abbrev notes : Notes
notes = record { comment_id = "c"; slice = λ n s. s; is_blank = λ s. s == "" }

abbrev again : Retrigger
again = record { target_state = "todo"; reset_blocker_fingerprint = true; note = some "again" }

retrigger_route-is_candidate_example :
    let d' = (retrigger_route sample_env notes "a" (some again) review).database in
    (state_of "a" d' ≡ some "todo")
    × ((now : ℕ) (i' : Issue) → get_issue "a" d' ≡ some i' → is_candidate now d' i' ≡ true)
unfolding get_issue find_row
retrigger_route-is_candidate_example =
    retrigger_route-is_candidate sample_env notes "a" again reviewed review refl refl tt refl

delete_issue-Forgotten_example :
    ((delete_issue "a" review).1.deleted ≡ true)
    × Forgotten "a" (delete_issue "a" review).0
    × ((delete_issue "a" review).0.plan_runs ≡ review.plan_runs)
    × ((v : String) → "a" ≢ v → view v (delete_issue "a" review).0 ≡ without "a" (view v review))
unfolding find_row
delete_issue-Forgotten_example = delete_issue-Forgotten "a" reviewed review refl

-- an issue whose plan awaits its review
abbrev planned : Database
planned = tables (issue_of "a" "plan_review" "high" ∷ []) (run_of "a" "claimed" "" ∷ [])

abbrev read_command : String → Command
read_command s = if s == "/lgtm" then approve else plain

abbrev said : CommentInput
said = record { body = "/lgtm"; author = none }

comment_route-Moves_example :
    Moves
      (state_of "a" planned)
      (state_of "a" (comment_route sample_env notes read_command "a" (some said) planned).database)
comment_route-Moves_example =
    comment_route-Moves sample_env notes read_command "a" (some said) planned
