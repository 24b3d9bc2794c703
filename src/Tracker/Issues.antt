-- ===== src/Tracker/Issues.antt =====
-- Issues: the writes and the reads by key of src/db/tracker-issues.ts. A row number that SQLite assigns
-- and the identifier TASK-n made from it are arguments.
pub mod Candidates
pub mod Ready
pub mod Ranking
pub mod Scheduling
pub mod Laws
use nano_symphony.Common.{
  ℕ, ◌+◌, String, Bool, true, false, ◌&&◌, ◌||◌, not, Option, none, some, List, [], ◌∷◌, ◌++◌, ◌==◌,
  if◌then◌else◌, get_or, or_else, is_some, is_text, keep, find_row, update_rows, delete_rows,
  sort_by,
}
use nano_symphony.Json.{Json}
use nano_symphony.Tracker.Types.{Issue, IssueInput, IssuePatch, Label, Blocker, Database, issue_key}

unfoldable pub get_issue : String → Database → Option Issue
get_issue uuid d = find_row issue_key uuid d.issues

find_identifier : String → List Issue → Option Issue
find_identifier identifier [] = none
find_identifier identifier (i ∷ is) =
    if is_text i.identifier identifier then some i else find_identifier identifier is

unfoldable pub get_issue_by_identifier : String → Database → Option Issue
unfolding find_identifier
get_issue_by_identifier identifier d = find_identifier identifier d.issues

unfoldable pub resolve_issue : String → Database → Option Issue
unfolding get_issue get_issue_by_identifier
resolve_issue id d = or_else (get_issue id d) (get_issue_by_identifier id d)

-- UPDATE issues SET … WHERE uuid = ?
unfoldable pub set_issue : String → (Issue → Issue) → Database → Database
set_issue uuid f d = record d { issues = update_rows issue_key uuid f d.issues }

issue_of : ℕ → ℕ → IssueInput → Issue
issue_of rowid now i = record {
  id = rowid;
  uuid = i.uuid;
  identifier = i.identifier;
  title = i.title;
  description = i.description;
  priority = get_or i.priority "medium";
  state = i.state;
  branch = i.branch;
  url = i.url;
  workspace_path = i.workspace_path;
  agent_kind = i.agent_kind;
  agent_binary = i.agent_binary;
  agent_role = i.agent_role;
  require_plan = i.require_plan;
  plan_run_id = i.plan_run_id;
  expected_schema = i.expected_schema;
  scratchpad = i.scratchpad;
  last_blocker_fingerprint = none;
  plan_estimates_json = i.plan_estimates_json;
  plan_actuals_json = i.plan_actuals_json;
  plan_progress_json = i.plan_progress_json;
  cost_budget_usd = i.cost_budget_usd;
  token_budget = i.token_budget;
  created_at = now;
  updated_at = now;
}

has_identifier : Option String → Database → Bool
unfolding find_identifier
has_identifier none d = false
has_identifier (some s) d = is_some (find_identifier s d.issues)

abbrev has_label : String → String → List Label → Bool
has_label uuid label [] = false
has_label uuid label (l ∷ ls) =
    (l.issue_uuid == uuid && l.label == label) || has_label uuid label ls

-- INSERT OR IGNORE for each label
insert_labels : String → List String → List Label → List Label
insert_labels uuid [] rows = rows
insert_labels uuid (l ∷ ls) rows =
    insert_labels uuid ls
      (if has_label uuid l rows then rows else rows ++ record { issue_uuid = uuid; label = l } ∷ [])

abbrev label_key : Label → String
label_key l = l.issue_uuid

-- DELETE, then the new labels
unfoldable pub replace_labels : String → List String → Database → Database
unfolding insert_labels
replace_labels uuid labels d = record d {
  labels = insert_labels uuid labels (delete_rows label_key uuid d.labels);
}

name_issue : String → IssueInput → Database → Database × Bool
unfolding set_issue has_identifier
name_issue generated input d = elim input.identifier [
  | some s ↦ (d, true)
  | none ↦
      if has_identifier (some generated) d
      then (d, false)
      else (set_issue input.uuid (λ i. record i { identifier = some generated }) d, true)
]

finish_insert : IssueInput → Database × Bool → Database × Option Issue
unfolding replace_labels get_issue
finish_insert input (d, false) = (d, none)
finish_insert input (d, true) =
    let d' = replace_labels input.uuid input.labels d in (d', get_issue input.uuid d')

-- `none` where a UNIQUE constraint fails and the call throws.
unfoldable pub insert_issue : ℕ → String → ℕ → IssueInput → Database → Database × Option Issue
unfolding issue_of has_identifier name_issue finish_insert
insert_issue rowid generated now input d =
    if is_some (find_row issue_key input.uuid d.issues) || has_identifier input.identifier d
    then (d, none)
    else finish_insert input (
        name_issue generated input
          (record d { issues = d.issues ++ issue_of rowid now input ∷ [] }))

-- every column of the row is written
unfoldable pub patch_issue : ℕ → IssuePatch → Issue → Issue
patch_issue now p i = record i {
  identifier = get_or p.identifier i.identifier;
  title = p.title;
  description = p.description;
  priority = get_or p.priority "medium";
  state = p.state;
  branch = p.branch;
  url = p.url;
  workspace_path = p.workspace_path;
  agent_kind = p.agent_kind;
  agent_binary = p.agent_binary;
  agent_role = p.agent_role;
  require_plan = p.require_plan;
  plan_run_id = p.plan_run_id;
  expected_schema = p.expected_schema;
  scratchpad = p.scratchpad;
  plan_estimates_json = p.plan_estimates_json;
  plan_actuals_json = p.plan_actuals_json;
  plan_progress_json = p.plan_progress_json;
  cost_budget_usd = p.cost_budget_usd;
  token_budget = p.token_budget;
  updated_at = get_or p.updated_at now;
}

unfoldable pub patch_labels : String → Option (List String) → Database → Database
unfolding replace_labels
patch_labels uuid none d = d
patch_labels uuid (some labels) d = replace_labels uuid labels d

-- another issue has the identifier
unfoldable pub is_taken : String → String → List Issue → Bool
is_taken uuid identifier [] = false
is_taken uuid identifier (i ∷ is) =
    (not (i.uuid == uuid) && is_text i.identifier identifier) || is_taken uuid identifier is

-- the UNIQUE constraint on the identifiers, against the one that a patch sets
unfoldable pub clashes : String → Option (Option String) → Database → Bool
unfolding is_taken
clashes uuid (some (some identifier)) d = is_taken uuid identifier d.issues
clashes uuid _ d = false

-- `none` where there is no such issue, and where the UNIQUE constraint fails and the call throws
unfoldable pub update_issue : ℕ → String → IssuePatch → Database → Database × Option Issue
unfolding patch_issue patch_labels set_issue get_issue clashes
update_issue now uuid p d = elim (get_issue uuid d) [
  | none ↦ (d, none)
  | some existing ↦
      if clashes uuid p.identifier d
      then (d, none)
      else let d' = patch_labels uuid p.labels (set_issue uuid (patch_issue now p) d) in
        (d', get_issue uuid d')
]

is_block : String → String → Blocker → Bool
is_block uuid blocker b = b.issue_uuid == uuid && b.blocker_uuid == blocker

unfoldable pub drop_block : String → String → List Blocker → List Blocker
unfolding is_block
drop_block uuid blocker rows = keep (λ b. not (is_block uuid blocker b)) rows

-- INSERT OR REPLACE
unfoldable pub insert_blocker : String → String → String → Database → Database
unfolding drop_block
insert_blocker uuid blocker state d = record d {
  blockers =
      drop_block uuid blocker d.blockers
      ++ record { issue_uuid = uuid; blocker_uuid = blocker; blocker_state = state } ∷ [];
}

unfoldable pub remove_blocker : String → String → Database → Database
unfolding drop_block
remove_blocker uuid blocker d = record d { blockers = drop_block uuid blocker d.blockers }

abbrev pub blocker_key : Blocker → String
blocker_key b = b.blocker_uuid

-- The rows that name the issue as a blocker follow its state.
unfoldable pub update_issue_state : ℕ → String → String → Database → Database
unfolding set_issue
update_issue_state now uuid state d =
    let d' = set_issue uuid (λ i. record i { state = state; updated_at = now }) d in
    record d' {
      blockers = update_rows blocker_key uuid (λ b. record b { blocker_state = state }) d.blockers;
    }

unfoldable pub update_issue_plan_run_id : ℕ → String → Option String → Database → Database
unfolding set_issue
update_issue_plan_run_id now uuid plan_run_id =
    set_issue uuid (λ i. record i { plan_run_id = plan_run_id; updated_at = now })

unfoldable pub update_issue_scratchpad : ℕ → String → Option String → Database → Database
unfolding set_issue
update_issue_scratchpad now uuid scratchpad =
    set_issue uuid (λ i. record i { scratchpad = scratchpad; updated_at = now })

unfoldable pub update_issue_plan_estimates : ℕ → String → Json → Database → Database
unfolding set_issue
update_issue_plan_estimates now uuid estimates =
    set_issue uuid (λ i. record i { plan_estimates_json = some estimates; updated_at = now })

unfoldable pub update_issue_plan_actuals : ℕ → String → Json → Database → Database
unfolding set_issue
update_issue_plan_actuals now uuid actuals =
    set_issue uuid (λ i. record i { plan_actuals_json = some actuals; updated_at = now })

unfoldable pub update_issue_plan_progress : ℕ → String → Json → Database → Database
unfolding set_issue
update_issue_plan_progress now uuid progress =
    set_issue uuid (λ i. record i { plan_progress_json = some progress; updated_at = now })

unfoldable pub update_last_blocker_fingerprint : String → Option String → Database → Database
unfolding set_issue
update_last_blocker_fingerprint uuid fingerprint =
    set_issue uuid (λ i. record i { last_blocker_fingerprint = fingerprint })

unfoldable pub get_last_blocker_fingerprint : String → Database → Option String
get_last_blocker_fingerprint uuid d = elim (find_row issue_key uuid d.issues) [
  | none ↦ none
  | some i ↦ i.last_blocker_fingerprint
]

-- ORDER BY created_at ASC, by a stable sort
unfoldable pub list_issues_by_plan_run : String → Database → List Issue
list_issues_by_plan_run plan_run_id d =
    sort_by (λ i. i.created_at) (keep (λ i. is_text i.plan_run_id plan_run_id) d.issues)
