-- ===== src/Http/Issues.antt =====
-- The routes of src/http/routes/issues.ts that write. A body is what its schema leaves, or nothing where the
-- schema refuses it; the message that Zod gives then stands as "Invalid request". The reply says whether the
-- route triggers a tick. The removal of a deleted issue's workspace is not part of it.
pub mod Plans
pub mod Retrigger
pub mod Laws
pub mod Retriggering
use nano_symphony.Common.{
  ℕ, String, Bool, true, false, not, Option, none, some, List, [], ◌∷◌, ◌==◌, if◌then◌else◌, get_or,
  concat,
}
use nano_symphony.Json.{Json, null, str, bool, object, get, text_or_null}
use nano_symphony.Tracker.Types.{Issue, IssueInput, IssuePatch, Run, Event, Database, AgentKind}
use nano_symphony.Tracker.Issues.{
  get_issue, insert_issue, update_issue, update_issue_state, update_issue_plan_estimates,
  update_issue_plan_actuals, update_last_blocker_fingerprint, insert_blocker, remove_blocker,
}
use nano_symphony.Tracker.Runs.{get_run, release_issue, update_last_issue_state}
use nano_symphony.Tracker.Events.{get_latest_event_by_kind}
use nano_symphony.Tracker.Removal.{Deletion, delete_issue}
use nano_symphony.Worker.Env.{Env, log_event}
use nano_symphony.Plan.Schema.{is_truthy}

pub record IssueReply : Type 0 where
  pub status : ℕ
  pub error : Option String
  pub state : Option String
  pub database : Database
  pub ticks : Bool

abbrev pub failed : ℕ → String → Database → IssueReply
failed status message d = record {
  status = status;
  error = some message;
  state = none;
  database = d;
  ticks = false;
}

-- { ok: true } or, with a state, { ok: true, state }
abbrev pub done : ℕ → Option String → Bool → Database → IssueReply
done status state ticks d = record {
  status = status;
  error = none;
  state = state;
  database = d;
  ticks = ticks;
}

-- A guard of most routes: the issue must be there.
abbrev pub if_found : String → (Issue → Database → IssueReply) → Database → IssueReply
if_found u answer d = elim (get_issue u d) [ none ↦ failed 404 "Not found" d | some i ↦ answer i d ]

-- a body that the schema must accept
abbrev pub if_valid {ℓ} :
    {A : Type ℓ} → Option A → (A → Database → IssueReply) → Database → IssueReply
if_valid none answer d = failed 400 "Invalid request" d
if_valid (some body) answer d = answer body d

abbrev inserted : Database × Option Issue → IssueReply
inserted (d, none) = failed 500 "Internal Server Error" d
inserted (d, some i) = done 201 none true d

-- POST /issues: the row number and the identifier that SQLite gives, and whether the body has an `id` or
-- a `uuid`; a constraint that fails is thrown on
unfoldable pub create_route : ℕ → String → Env → Bool → Option IssueInput → Database → IssueReply
create_route rowid generated env has_id body d =
    if has_id
    then failed 400
        "fields 'id' and 'uuid' are not accepted; server auto-generates uuid and defaults identifier to TASK-N"
        d
    else if_valid body (λ input d'. inserted (insert_issue rowid generated env.now input d')) d

-- what `IssueUpdateSchema` leaves of a body
pub record IssueUpdate : Type 0 where
  pub identifier : Option (Option String)
  pub title : Option String
  pub description : Option String
  pub priority : Option String
  pub state : Option String
  pub branch : Option String
  pub url : Option String
  pub workspace_path : Option String
  pub agent_kind : Option AgentKind
  pub agent_binary : Option String
  pub agent_role : Option String
  pub require_plan : Option Bool
  pub cost_budget_usd : Option ℕ
  pub token_budget : Option ℕ
  pub labels : Option (List String)

-- the patch that the route makes of it: the schema knows no other column
unfoldable pub patch_of : ℕ → Issue → IssueUpdate → IssuePatch
patch_of now existing p = record {
  identifier = p.identifier;
  title = get_or p.title existing.title;
  description = p.description;
  priority = p.priority;
  state = get_or p.state existing.state;
  branch = p.branch;
  url = p.url;
  workspace_path = p.workspace_path;
  agent_kind = p.agent_kind;
  agent_binary = p.agent_binary;
  agent_role = p.agent_role;
  require_plan = p.require_plan;
  plan_run_id = none;
  expected_schema = none;
  scratchpad = none;
  plan_estimates_json = none;
  plan_actuals_json = none;
  plan_progress_json = none;
  cost_budget_usd = p.cost_budget_usd;
  token_budget = p.token_budget;
  updated_at = some now;
  labels = p.labels;
}

-- PUT /issues/:uuid; the constraint on identifiers is thrown on
abbrev pub updated : Database × Option Issue → IssueReply
updated (d, none) = failed 500 "Internal Server Error" d
updated (d, some i) = done 200 none true d

unfoldable pub update_route : Env → String → Option IssueUpdate → Database → IssueReply
unfolding patch_of
update_route env u body =
    if_found u
      (λ i. if_valid body (λ p d. updated (update_issue env.now u (patch_of env.now i p) d)))

abbrev deleted : Database × Deletion → IssueReply
deleted (d, r) = if r.deleted then done 200 none false d else failed 404 "Not found" d

-- DELETE /issues/:uuid
unfoldable pub remove_route : String → Database → IssueReply
remove_route u d = deleted (delete_issue u d)

abbrev pub note_field : Option String → List (String × Json)
note_field none = []
note_field (some note) = ("note", str note) ∷ []

-- POST /issues/:uuid/approve
unfoldable pub approve_issue : Env → String → Option String → Database → IssueReply
approve_issue env u note d = done 200 none false (
    log_event env u "approved" (get_or note "Approved by reviewer")
      (some (object (note_field note)))
      (update_last_issue_state u "done" (update_issue_state env.now u "done" d)))

-- the note and the feedback, which stands as JSON
pub record ChangeRequest : Type 0 where
  pub note : String
  pub feedback : Option Json

-- POST /issues/:uuid/request-changes
unfoldable pub request_changes : Env → String → Option ChangeRequest → Database → IssueReply
request_changes env u body = if_valid body (λ p d. done 200 none true (
    log_event env u "revision_requested" p.note (some (object (("note", str p.note) ∷ [])))
      (update_last_issue_state u "todo" (update_issue_state env.now u "todo" d))))

-- POST /issues/:uuid/actuals
unfoldable pub actuals_route : Env → String → Option Json → Database → IssueReply
actuals_route env u body = if_found u (λ i.
    if_valid body
      (λ actuals d. done 200 none false (update_issue_plan_actuals env.now u actuals d)))

abbrev pub add_found : Env → String → Option Issue → Database → IssueReply
add_found env u none d = failed 404 "Blocker issue not found" d
add_found env u (some b) d =
    if b.uuid == u
    then failed 400 "An issue cannot block itself" d
    else done 200 none false (
        log_event env u "blocker_added"
          (concat ("Blocked by " ∷ get_or b.identifier "null" ∷ " (" ∷ b.uuid ∷ ")" ∷ []))
          (some (object (("blocker_uuid", str b.uuid) ∷ ("blocker_state", str b.state) ∷ [])))
          (insert_blocker u b.uuid b.state d))

-- POST /issues/:uuid/blockers
unfoldable pub add_blocker : Env → String → Option String → Database → IssueReply
add_blocker env u body = if_found u (λ i. if_valid body (λ b d. add_found env u (get_issue b d) d))

-- DELETE /issues/:uuid/blockers/:blockerUuid
unfoldable pub drop_blocker : Env → String → String → Database → IssueReply
drop_blocker env u b = if_found u (λ i d. done 200 none true (
    log_event env u "blocker_removed" (concat ("Blocker " ∷ b ∷ " removed" ∷ []))
      (some (object (("blocker_uuid", str b) ∷ []))) (remove_blocker u b d)))
