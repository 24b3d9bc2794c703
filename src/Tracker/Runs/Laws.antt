-- ===== src/Tracker/Runs/Laws.antt =====
-- What each write of src/db/tracker-runs.ts leaves for a read.
use mathlib.Core.Option
use nano_symphony.Common.{
  ℕ, String, Bool, ◌≡◌, refl, ◌⊎◌, inl, inr, true, false, Option, none, some, List, [], ◌∷◌, ◌++◌,
  arith, ◌==◌, eq_iff, if◌then◌else◌, is_some, find_row, find_row-update_rows,
}
use nano_symphony.Tracker.Types.{Run, Database, run_key}
use nano_symphony.Tracker.Runs.{
  set_run, get_run, update_token_stats, release_issue, update_last_issue_state, schedule_retry,
  update_heartbeat, set_heartbeat_timeout, update_workspace_path, mark_current_attempt,
  update_agent_pid, claim_issue, fresh_run, take_run, is_claimable,
}

-- An update of one run, as the reads see it.
abbrev pub Updates : (Database → Database) → String → (Run → Run) → Type 0
Updates op k f =
    (j : String) (d : Database)
    → get_run j (op d) ≡ (if k == j then Option.map f (get_run j d) else get_run j d)

pub get_run-set_run :
    (k : String) (f : Run → Run)
    → ((r : Run) → run_key (f r) ≡ run_key r)
    → Updates (set_run k f) k f
unfolding get_run set_run
get_run-set_run k f same j d = find_row-update_rows run_key j k f same d.runs

pub get_run-release_issue :
    (k s : String) → Updates (release_issue k s) k (λ r. record r { last_state = s })
unfolding release_issue get_run
get_run-release_issue k s j d = find_row-update_rows run_key j k _ (λ r. refl) d.runs

pub get_run-update_last_issue_state :
    (k s : String)
    → Updates (update_last_issue_state k s) k (λ r. record r { last_issue_state = s })
unfolding update_last_issue_state get_run
get_run-update_last_issue_state k s j d = find_row-update_rows run_key j k _ (λ r. refl) d.runs

pub get_run-schedule_retry :
    (k : String) (ts a : ℕ)
    → Updates
        (schedule_retry k ts a)
        k
        (λ r. record r { last_state = "retry_queued"; next_due_ts = some ts; next_attempt = a })
unfolding schedule_retry get_run
get_run-schedule_retry k ts a j d = find_row-update_rows run_key j k _ (λ r. refl) d.runs

pub get_run-update_heartbeat :
    (k : String) (ts : ℕ)
    → Updates (update_heartbeat k ts) k (λ r. record r { heartbeat_at = some ts })
unfolding update_heartbeat get_run
get_run-update_heartbeat k ts j d = find_row-update_rows run_key j k _ (λ r. refl) d.runs

pub get_run-set_heartbeat_timeout :
    (k : String) (ms : ℕ)
    → Updates (set_heartbeat_timeout k ms) k (λ r. record r { heartbeat_timeout_ms = ms })
unfolding set_heartbeat_timeout get_run
get_run-set_heartbeat_timeout k ms j d = find_row-update_rows run_key j k _ (λ r. refl) d.runs

pub get_run-update_token_stats :
    (k : String) (a b t : ℕ)
    → Updates
        (update_token_stats k a b t)
        k
        (λ r. record r { token_input = a; token_output = b; token_total = t })
unfolding update_token_stats get_run
get_run-update_token_stats k a b t j d = find_row-update_rows run_key j k _ (λ r. refl) d.runs

pub get_run-update_workspace_path :
    (k path : String) (managed : Bool)
    → Updates
        (update_workspace_path k path managed)
        k
        (λ r. record r { workspace_path = path; workspace_managed = managed })
unfolding update_workspace_path get_run
get_run-update_workspace_path k path managed j d =
    find_row-update_rows run_key j k _ (λ r. refl) d.runs

pub get_run-mark_current_attempt :
    (k : String) (a : ℕ)
    → Updates (mark_current_attempt k a) k (λ r. record r { current_attempt = some a })
unfolding mark_current_attempt get_run
get_run-mark_current_attempt k a j d = find_row-update_rows run_key j k _ (λ r. refl) d.runs

pub get_run-update_agent_pid :
    (k : String) (pid : Option ℕ)
    → Updates (update_agent_pid k pid) k (λ r. record r { agent_pid = pid })
unfolding update_agent_pid get_run
get_run-update_agent_pid k pid j d = find_row-update_rows run_key j k _ (λ r. refl) d.runs

find_row-snoc :
    (j : String) (r : Run) (rows : List Run)
    → find_row run_key j (rows ++ r ∷ []) ≡ (
        if is_some (find_row run_key j rows)
        then find_row run_key j rows
        else if run_key r == j
        then some r
        else none)
unfolding find_row
find_row-snoc j r [] = ground arith
find_row-snoc j r (x ∷ rows) = ground (arith, find_row-snoc j r rows)

-- the run after a claim that succeeds
abbrev pub claimed_run : String → ℕ → ℕ → Option Run → Run
claimed_run u a now none = fresh_run u a now
claimed_run u a now (some r) = take_run a now r

abbrev pub IsFree : String → Database → Type 0
IsFree u d = (get_run u d ≡ none) ⊎ ((r : Run) × (get_run u d ≡ some r) × (is_claimable r ≡ true))

pub claim_issue-free :
    (u : String) (a now : ℕ) (d : Database)
    → IsFree u d
    → ((claim_issue u a now d).1 ≡ true)
      × ((j : String)
          → get_run j (claim_issue u a now d).0
            ≡ (if u == j then some (claimed_run u a now (get_run u d)) else get_run j d))
unfolding claim_issue get_run
claim_issue-free u a now d (inl e) =
    (ground arith, λ j. ground (arith, find_row-snoc j (fresh_run u a now) d.runs, eq_iff u j))
claim_issue-free u a now d (inr (r, e, c)) = (
  ground arith,
  λ j.
      ground
        (arith, find_row-update_rows run_key j u (take_run a now) (λ x. refl) d.runs, eq_iff u j),
)

pub claim_issue-held :
    (u : String) (a now : ℕ) (d : Database) (r : Run)
    → get_run u d ≡ some r
    → is_claimable r ≡ false
    → claim_issue u a now d ≡ (d, false)
unfolding claim_issue get_run
claim_issue-held u a now d r e c = ground arith
