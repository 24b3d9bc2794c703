-- ===== src/Http/Issues/Plans.antt =====
-- The approval and the revision of a plan: src/http/routes/helpers.ts, with the routes of
-- src/http/routes/issues.ts.
use nano_symphony.Common.{
  ℕ, String, true, Option, none, some, List, [], ◌∷◌, ◌==◌, if◌then◌else◌, get_or,
}
use nano_symphony.Json.{Json, str, object, get}
use nano_symphony.Tracker.Types.{Issue, Run, Event, Database}
use nano_symphony.Tracker.Issues.{update_issue_state, update_issue_plan_estimates}
use nano_symphony.Tracker.Runs.{get_run, release_issue}
use nano_symphony.Tracker.Events.{get_latest_event_by_kind}
use nano_symphony.Worker.Env.{Env, log_event}
use nano_symphony.Plan.Schema.{is_truthy}
use nano_symphony.Http.Issues.{
  IssueReply, ChangeRequest, failed, done, if_found, if_valid, note_field,
}

abbrev pub release_found : String → Option Run → Database → Database
release_found u none d = d
release_found u (some r) d = if r.last_state == "released" then d else release_issue u "released" d

unfoldable pub release_for_reschedule : String → Database → Database
release_for_reschedule u d = release_found u (get_run u d) d

-- `if (payload.estimates)`
abbrev pub keep_estimates : ℕ → String → Option Json → Database → Database
keep_estimates now u none d = d
keep_estimates now u (some v) d = if is_truthy v then update_issue_plan_estimates now u v d else d

abbrev pub payload_of : Event → Json
payload_of e = get_or e.payload_json (object [])

abbrev pub take_estimates : ℕ → String → Option Event → Database → Database
take_estimates now u none d = d
take_estimates now u (some e) d = keep_estimates now u (get "estimates" (payload_of e)) d

abbrev in_review : Issue → (Database → IssueReply) → Database → IssueReply
in_review i answer d =
    if i.state == "plan_review" then answer d else failed 400 "Issue is not in plan_review state" d

-- `approvePlan`, and POST /issues/:uuid/approve-plan
unfoldable pub approve_plan : Env → String → Option String → Database → IssueReply
unfolding release_for_reschedule
approve_plan env u note = if_found u (λ i. in_review i (λ d.
    let moved = update_issue_state env.now u "in_progress" d in
    let estimated =
      take_estimates env.now u (get_latest_event_by_kind u "plan_submitted" moved) moved in
    done 200 (some "in_progress") true (
      release_for_reschedule u (
        log_event env u "plan_approved" (get_or note "Plan approved")
          (some (object (note_field note))) estimated))))

abbrev feedback_field : Option Json → List (String × Json)
feedback_field none = []
feedback_field (some v) = ("feedback", v) ∷ []

-- `revisePlan`
unfoldable pub revise_plan : Env → String → ChangeRequest → Database → IssueReply
unfolding release_for_reschedule
revise_plan env u p = if_found u (λ i. in_review i (λ d. done 200 (some "planning") true (
    release_for_reschedule u (
      log_event env u "plan_revision_requested" p.note
        (some (object (("note", str p.note) ∷ feedback_field p.feedback)))
        (update_issue_state env.now u "planning" d)))))

-- POST /issues/:uuid/revise-plan
unfoldable pub revise_route : Env → String → Option ChangeRequest → Database → IssueReply
unfolding revise_plan
revise_route env u body = if_valid body (revise_plan env u)
