-- ===== src/Tracker/Issues/Laws.antt =====
-- What each write of src/db/tracker-issues.ts leaves for a read, and what it leaves of the other
-- tables.
use mathlib.Core.Option
use nano_symphony.Common.{ℕ, String, ◌≡◌, refl, Option, ◌==◌, if◌then◌else◌, find_row-update_rows}
use nano_symphony.Tracker.Types.{Issue, Database, issue_key}
use nano_symphony.Tracker.Issues.{
  get_issue, update_issue_state, update_issue_plan_run_id, update_last_blocker_fingerprint,
}

-- An update of one issue, as the reads see it.
abbrev pub UpdatesIssue : (Database → Database) → String → (Issue → Issue) → Type 0
UpdatesIssue op k f =
    (j : String) (d : Database)
    → get_issue j (op d) ≡ (if k == j then Option.map f (get_issue j d) else get_issue j d)

pub get_issue-update_issue_state :
    (now : ℕ) (k s : String)
    → UpdatesIssue (update_issue_state now k s) k (λ i. record i { state = s; updated_at = now })
unfolding update_issue_state get_issue
get_issue-update_issue_state now k s j d = find_row-update_rows issue_key j k _ (λ i. refl) d.issues

pub get_issue-update_issue_plan_run_id :
    (now : ℕ) (k : String) (p : Option String)
    → UpdatesIssue
        (update_issue_plan_run_id now k p)
        k
        (λ i. record i { plan_run_id = p; updated_at = now })
unfolding update_issue_plan_run_id get_issue
get_issue-update_issue_plan_run_id now k p j d =
    find_row-update_rows issue_key j k _ (λ i. refl) d.issues

pub get_issue-update_last_blocker_fingerprint :
    (k : String) (f : Option String)
    → UpdatesIssue
        (update_last_blocker_fingerprint k f)
        k
        (λ i. record i { last_blocker_fingerprint = f })
unfolding update_last_blocker_fingerprint get_issue
get_issue-update_last_blocker_fingerprint k f j d =
    find_row-update_rows issue_key j k _ (λ i. refl) d.issues
