-- ===== src/Tracker/Runs.antt =====
-- Runs of issues: src/db/tracker-runs.ts.
pub mod Laws
pub mod Claim
use nano_symphony.Common.{
  ℕ, ◌+◌, String, Bool, true, false, ◌&&◌, not, Option, none, some, List, [], ◌∷◌, ◌++◌, ◌==◌, ltb,
  leb, if◌then◌else◌, one_of, keep, find_row, update_rows,
}
use nano_symphony.Json.{Json, bool, str, whole, object}
use nano_symphony.Tracker.Types.{Issue, Run, Database, BusMessage, run, issue_key, run_key, emit}

-- What the bus is told of a run.
patch : String → List (String × Json) → BusMessage
patch issue_uuid changes = run (object (("issue_uuid", str issue_uuid) ∷ changes))

-- a row with the defaults of the schema
pub fresh_run : String → ℕ → ℕ → Run
fresh_run issue_uuid attempt now = record {
  issue_uuid = issue_uuid;
  next_attempt = attempt;
  current_attempt = none;
  last_state = "claimed";
  last_issue_state = "";
  workspace_path = "";
  workspace_managed = true;
  next_due_ts = none;
  agent_pid = none;
  token_input = 0;
  token_output = 0;
  token_total = 0;
  heartbeat_at = some now;
  heartbeat_timeout_ms = 120000;
}

-- WHERE last_state IN ('released', 'retry_queued')
abbrev pub is_claimable : Run → Bool
is_claimable r = one_of r.last_state ("released" ∷ "retry_queued" ∷ [])

pub take_run : ℕ → ℕ → Run → Run
take_run attempt now r = record r {
  next_attempt = attempt;
  last_state = "claimed";
  heartbeat_at = some now;
}

-- the upsert: its row count is not 0 exactly where it claims
unfoldable pub claim_rows : String → ℕ → ℕ → List Run → List Run × Bool
unfolding fresh_run take_run
claim_rows issue_uuid attempt now rows = elim (find_row run_key issue_uuid rows) [
  | none ↦ (rows ++ fresh_run issue_uuid attempt now ∷ [], true)
  | some r ↦
      if is_claimable r
      then (update_rows run_key issue_uuid (take_run attempt now) rows, true)
      else (rows, false)
]

claim_done : String → ℕ → List Run × Bool → Database → Database × Bool
claim_done issue_uuid attempt (rows, true) d = (
  emit (patch issue_uuid (("next_attempt", whole attempt) ∷ ("last_state", str "claimed") ∷ []))
      (record d { runs = rows }),
  true,
)
claim_done issue_uuid attempt (rows, false) d = (record d { runs = rows }, false)

unfoldable pub claim_issue : String → ℕ → ℕ → Database → Database × Bool
unfolding claim_rows claim_done patch
claim_issue issue_uuid attempt now d =
    claim_done issue_uuid attempt (claim_rows issue_uuid attempt now d.runs) d

-- UPDATE symphony_runs SET … WHERE issue_uuid = ?
unfoldable pub set_run : String → (Run → Run) → Database → Database
set_run issue_uuid f d = record d { runs = update_rows run_key issue_uuid f d.runs }

unfoldable pub release_issue : String → String → Database → Database
unfolding set_run patch
release_issue issue_uuid state d =
    emit (patch issue_uuid (("last_state", str state) ∷ []))
      (set_run issue_uuid (λ r. record r { last_state = state }) d)

unfoldable pub update_last_issue_state : String → String → Database → Database
unfolding set_run
update_last_issue_state issue_uuid issue_state =
    set_run issue_uuid (λ r. record r { last_issue_state = issue_state })

unfoldable pub schedule_retry : String → ℕ → ℕ → Database → Database
unfolding set_run patch
schedule_retry issue_uuid next_due_ts attempt d =
    emit
      (patch issue_uuid (
        ("last_state", str "retry_queued")
        ∷ ("next_due_ts", whole next_due_ts)
        ∷ ("next_attempt", whole attempt)
        ∷ []))
      (set_run issue_uuid
        (λ r. record r {
          last_state = "retry_queued";
          next_due_ts = some next_due_ts;
          next_attempt = attempt;
        })
        d)

-- next_due_ts IS NULL OR next_due_ts <= now
abbrev pub is_due : ℕ → Option ℕ → Bool
is_due now none = true
is_due now (some ts) = leb ts now

unfoldable pub fetch_due_retries : ℕ → Database → List Run
fetch_due_retries now d =
    keep (λ r. (r.last_state == "retry_queued") && is_due now r.next_due_ts) d.runs

unfoldable pub update_token_stats : String → ℕ → ℕ → ℕ → Database → Database
unfolding set_run patch
update_token_stats issue_uuid input output total d =
    emit
      (patch issue_uuid (
        ("token_input", whole input)
        ∷ ("token_output", whole output)
        ∷ ("token_total", whole total)
        ∷ []))
      (set_run issue_uuid
        (λ r. record r { token_input = input; token_output = output; token_total = total }) d)

-- last_state NOT IN ('released')
abbrev pub is_active : Run → Bool
is_active r = not (r.last_state == "released")

unfoldable pub get_active_runs : Database → List Run
get_active_runs d = keep is_active d.runs

pub record ActiveWorkspacePath : Type 0 where
  pub issue_uuid : String
  pub run_workspace_path : Option String
  pub issue_workspace_path : Option String

-- NULLIF(s, '')
abbrev pub null_if_empty : String → Option String
null_if_empty s = if s == "" then none else some s

abbrev pub null_if_empty? : Option String → Option String
null_if_empty? none = none
null_if_empty? (some s) = null_if_empty s

-- the active runs, each joined with its issue
unfoldable pub active_paths : List Issue → List Run → List ActiveWorkspacePath
active_paths issues [] = []
active_paths issues (r ∷ rs) =
    let rest = active_paths issues rs in
    elim (find_row issue_key r.issue_uuid issues) [
      | none ↦ rest
      | some i ↦
          if is_active r
          then record {
            issue_uuid = r.issue_uuid;
            run_workspace_path = null_if_empty r.workspace_path;
            issue_workspace_path = null_if_empty? i.workspace_path;
          }
            ∷ rest
          else rest
    ]

unfoldable pub get_active_workspace_paths : Database → List ActiveWorkspacePath
unfolding active_paths
get_active_workspace_paths d = active_paths d.issues d.runs

unfoldable pub get_run : String → Database → Option Run
get_run issue_uuid d = find_row run_key issue_uuid d.runs

unfoldable pub update_workspace_path : String → String → Bool → Database → Database
unfolding set_run patch
update_workspace_path issue_uuid ws_path managed d =
    emit
      (patch issue_uuid
        (("workspace_path", str ws_path) ∷ ("workspace_managed", bool managed) ∷ []))
      (set_run issue_uuid (λ r. record r { workspace_path = ws_path; workspace_managed = managed })
        d)

unfoldable pub mark_current_attempt : String → ℕ → Database → Database
unfolding set_run patch
mark_current_attempt issue_uuid attempt d =
    emit (patch issue_uuid (("current_attempt", whole attempt) ∷ []))
      (set_run issue_uuid (λ r. record r { current_attempt = some attempt }) d)

unfoldable pub update_agent_pid : String → Option ℕ → Database → Database
unfolding set_run
update_agent_pid issue_uuid pid = set_run issue_uuid (λ r. record r { agent_pid = pid })

unfoldable pub update_heartbeat : String → ℕ → Database → Database
unfolding set_run
update_heartbeat issue_uuid ts = set_run issue_uuid (λ r. record r { heartbeat_at = some ts })

unfoldable pub set_heartbeat_timeout : String → ℕ → Database → Database
unfolding set_run
set_heartbeat_timeout issue_uuid timeout_ms =
    set_run issue_uuid (λ r. record r { heartbeat_timeout_ms = timeout_ms })

-- heartbeat_at IS NULL OR heartbeat_at < threshold
abbrev pub is_stale : ℕ → Option ℕ → Bool
is_stale threshold none = true
is_stale threshold (some ts) = ltb ts threshold

unfoldable pub fetch_stale_runs : ℕ → Database → List Run
fetch_stale_runs threshold d =
    keep (λ r. (r.last_state == "claimed") && is_stale threshold r.heartbeat_at) d.runs
