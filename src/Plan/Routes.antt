-- ===== src/Plan/Routes.antt =====
-- The routes that change plan runs: src/http/routes/plan-runs.ts. A route answers a status and a body,
-- and leaves a database; those that answer 200 or 201 trigger a tick.
use nano_symphony.Common.{
  ℕ, String, true, Option, none, some, List, [], ◌∷◌, ◌==◌, if◌then◌else◌, get_or, one_of, concat,
}
use nano_symphony.Json.{Json, str, bool, object}
use nano_symphony.Tracker.Types.{Issue, PlanRun, PlanRunState, Database}
use nano_symphony.Tracker.Issues.{update_issue_state, list_issues_by_plan_run}
use nano_symphony.Tracker.PlanRuns.{
  PlanRunInput, insert_plan_run, get_plan_run, approve_plan_run, reject_plan_run, finish_plan_run,
  state_text,
}
use nano_symphony.Worker.Env.{Env, log_event}

pub record Reply : Type 0 where
  pub status : ℕ
  pub body : Json
  pub database : Database

abbrev pub reply : ℕ → List (String × Json) → Database → Reply
reply status fields d = record { status = status; body = object fields; database = d }

abbrev pub not_found : Database → Reply
not_found = reply 404 (("error", str "Not found") ∷ [])

-- POST /plan-runs with a body that the schema accepts, and a new id
unfoldable pub create_plan_run : Env → PlanRunInput → Database → Reply
create_plan_run env input d =
    reply 201 (("id", str input.id) ∷ ("state", str "pending") ∷ [])
      (insert_plan_run input env.now d)

abbrev not_awaiting : PlanRun → Database → Reply
not_awaiting run = reply 400 (
    (
      "error",
      str (
          concat (
            "Plan run must be in 'awaiting_approval' state (current: '"
            ∷ state_text run.state
            ∷ "')"
            ∷ [])),
    )
    ∷ [])

-- The guard of the three answers to a plan run: it must await approval.
unfoldable pub if_awaiting : String → (Database → Reply) → Database → Reply
if_awaiting id answer d = elim (get_plan_run id d) [
  | none ↦ not_found d
  | some run ↦ if state_text run.state == "awaiting_approval" then answer d else not_awaiting run d
]

abbrev pub approve_answer : Env → String → Option String → Database → Reply
approve_answer env id approved_by d =
    reply 200
      (("ok", bool true)
        ∷ ("state", str "awaiting_approval")
        ∷ ("approval_status", str "approved")
        ∷ [])
      (approve_plan_run id (some (get_or approved_by "operator")) env.now d)

unfoldable pub approve_route : Env → String → Option String → Database → Reply
unfolding if_awaiting
approve_route env id approved_by = if_awaiting id (approve_answer env id approved_by)

abbrev cancelled : Database → Reply
cancelled = reply 200 (("ok", bool true) ∷ ("state", str "cancelled") ∷ [])

abbrev pub reject_answer : Env → String → String → Database → Reply
reject_answer env id reason d = cancelled (reject_plan_run id (some reason) env.now d)

unfoldable pub reject_route : Env → String → Option String → Database → Reply
unfolding if_awaiting
reject_route env id reason = if_awaiting id (reject_answer env id (get_or reason "Rejected"))

abbrev pub change_request : Option String → String
change_request suggestion =
    concat ("Changes requested: " ∷ get_or suggestion "(no suggestion provided)" ∷ [])

unfoldable pub request_changes_route : Env → String → Option String → Database → Reply
unfolding if_awaiting
request_changes_route env id suggestion =
    if_awaiting id (reject_answer env id (change_request suggestion))

unfoldable pub cancel_for_operator : Env → String → Issue → Database → Database
cancel_for_operator env id i d =
    if one_of i.state ("done" ∷ "cancelled" ∷ [])
    then d
    else log_event env i.uuid "issue_cancelled"
        (concat ("Cancelled: parent plan run " ∷ id ∷ " cancelled by operator" ∷ []))
        (some (object (("run_id", str id) ∷ []))) (update_issue_state env.now i.uuid "cancelled" d)

unfoldable pub cancel_all_for_operator : Env → String → List Issue → Database → Database
unfolding cancel_for_operator
cancel_all_for_operator env id [] d = d
cancel_all_for_operator env id (i ∷ is) d =
    cancel_all_for_operator env id is (cancel_for_operator env id i d)

abbrev terminal : List String
terminal = "done" ∷ "failed" ∷ "cancelled" ∷ []

-- DELETE /plan-runs/:id
unfoldable pub delete_route : Env → String → Database → Reply
unfolding cancel_all_for_operator
delete_route env id d0 = elim (get_plan_run id d0) [
  | none ↦ not_found d0
  | some run ↦
      let d = finish_plan_run id PlanRunState.cancelled (some "cancelled by operator") env.now d0 in
      if one_of (state_text run.state) terminal
      then reply 400
          ((
            "error",
            str (
                concat
                  ("Plan run is already in terminal state '" ∷ state_text run.state ∷ "'" ∷ [])),
          )
            ∷ [])
          d0
      else cancelled (cancel_all_for_operator env id (list_issues_by_plan_run id d) d)
]
