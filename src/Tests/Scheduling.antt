-- ===== src/Tests/Scheduling.antt =====
-- The scheduler at concrete tables.
use nano_symphony.Common.{◌≡◌, ◌↔◌, true, none, some, [], ◌∷◌, All}
use nano_symphony.Tracker.Types.{Database}
use nano_symphony.Tracker.Runs.{fetch_stale_runs}
use nano_symphony.Tracker.Runs.Laws.{IsFree}
use nano_symphony.Workspace.{resolve_workspace_path}
use nano_symphony.Semaphore.{Semaphore, set_max, available}
use nano_symphony.Orchestrator.Conflict.{find_workspace_conflict}
use nano_symphony.Orchestrator.Conflict.Unused.{LeavesFree, find_workspace_conflict-LeavesFree}
use nano_symphony.Orchestrator.Stale.{release_stale_runs}
use nano_symphony.Orchestrator.Stale.Laws.{release_stale_runs-none_left}
use nano_symphony.Orchestrator.Dispatch.{Job, try_claim, tick}
use nano_symphony.Orchestrator.Dispatch.Claim.{HasRoom, try_claim-wins_iff}
use nano_symphony.Orchestrator.Dispatch.Slots.{Accounts, tick-Accounts}
use nano_symphony.Tests.Samples.{
  issue_of, run_of, tables, busy, sample_paths, sample_env, sample_scheduler,
}

-- two issues that name one directory, the first being worked on
abbrev shared : Database
shared =
    tables
      (record (issue_of "a" "todo" "high") { workspace_path = some "/repo" }
        ∷ record (issue_of "b" "todo" "low") { workspace_path = some "/repo" }
        ∷ [])
      (run_of "a" "claimed" "" ∷ [])

find_workspace_conflict-LeavesFree_example :
    (find_workspace_conflict sample_paths none "b" "/repo" shared ≡ none)
    ↔ All
        (LeavesFree sample_paths none "b"
          (resolve_workspace_path sample_paths "/repo" none)
          shared.issues)
        shared.runs
find_workspace_conflict-LeavesFree_example =
    find_workspace_conflict-LeavesFree sample_paths none "b" "/repo" shared

release_stale_runs-none_left_example :
    fetch_stale_runs 880 (release_stale_runs sample_env (λ u. true) 120 busy) ≡ []
release_stale_runs-none_left_example = release_stale_runs-none_left sample_env (λ u. true) 120 busy

abbrev second_job : Job
second_job = record { issue_uuid = "b"; attempt = 0 }

try_claim-wins_iff_example :
    ((try_claim sample_scheduler second_job shared).1 ≡ true)
    ↔ (IsFree "b" shared × HasRoom sample_scheduler "b" shared)
try_claim-wins_iff_example = try_claim-wins_iff sample_scheduler second_job shared

abbrev idle_semaphore : Semaphore
idle_semaphore = record { limit = 2; count = 2; queue = [] }

tick-Accounts_example :
    Accounts (available (set_max 2 idle_semaphore)) (tick sample_scheduler 2 idle_semaphore shared)
tick-Accounts_example = tick-Accounts sample_scheduler 2 idle_semaphore shared
