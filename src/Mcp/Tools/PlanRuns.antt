-- ===== src/Mcp/Tools/PlanRuns.antt =====
-- The plan runs that a tool of src/mcp/tools.ts spawns.
use nano_symphony.Common.{
  ℕ, String, ◌≡◌, refl, ◌∙◌, true, ◌||◌, not, Option, none, some, List, [], ◌∷◌, ◌==◌, get_or,
  one_of,
}
use nano_symphony.Json.{Json}
use nano_symphony.Tracker.Types.{Issue, Database}
use nano_symphony.Tracker.Issues.{
  get_issue, set_issue, update_issue_state, update_issue_scratchpad,
  update_last_blocker_fingerprint,
}
use nano_symphony.Tracker.Events.{record_event}
use nano_symphony.Tracker.Results.{upsert_issue_result}
use nano_symphony.Tracker.Artifacts.{insert_artifact}
use nano_symphony.Worker.Env.{log_event}
use nano_symphony.Mcp.Tools.Host.{Host}
use nano_symphony.Mcp.Tools.Artifacts.{ArtifactItem}
use nano_symphony.Mcp.Tools.Schemas.{SuggestStateTransition, SessionCompleted}
use nano_symphony.Mcp.Tools.Reads.{issue_missing}
use nano_symphony.Mcp.Tools.Effects.{
  Handled, report_event, report_goal_state, suggest_state_transition, suggest_transition_forbidden,
  suggest_transition_allowed, emit_for, emit_result,
}
use nano_symphony.Mcp.Tools.Session.{
  insert_item, insert_items, is_seen, now_seen, dedup_path, note_fingerprint, session_completed,
}
use nano_symphony.Mcp.Tools.Handle.{write_scratchpad, handle_tool, in_plan}
use nano_symphony.Mcp.Tools.Cases.{if_case, option_case, handle_tool-ByTool}

plan_runs-insert_items :
    (host : Host) (u : String) (attempt : ℕ) (seen : List String) (items : List ArtifactItem)
    (d : Database)
    → (insert_items host u attempt seen items d).plan_runs ≡ d.plan_runs
unfolding insert_items insert_item insert_artifact
plan_runs-insert_items host u attempt seen [] d = refl
plan_runs-insert_items host u attempt seen (a ∷ items) d =
    if_case (λ (x : Database). x.plan_runs ≡ d.plan_runs) (is_seen (dedup_path a) seen)
      (λ _. plan_runs-insert_items host u attempt seen items d)
      (λ _.
        plan_runs-insert_items host u attempt (now_seen (dedup_path a) seen) items
          (insert_item host u attempt a d))

module _ (host : Host) (u : String) where
  Plans : Database → Handled → Type 0
  Plans d h = h.0.plan_runs ≡ d.plan_runs

  Plans-transition :
      (p : SuggestStateTransition) (d : Database)
      → Plans d (suggest_state_transition host.env u p d)
  unfolding Plans suggest_state_transition log_event record_event update_issue_state set_issue
  Plans-transition p d =
      if_case (Plans d) (one_of p.suggested_state suggest_transition_forbidden) (λ _. refl)
        (λ _.
          if_case (Plans d) (not (one_of p.suggested_state suggest_transition_allowed)) (λ _. refl)
            (λ _. refl))

  Plans-emit_for :
      (attempt : ℕ) (i : Issue) (w : Option Json) (d : Database)
      → Plans d (emit_for host u attempt i w d)
  unfolding Plans emit_for upsert_issue_result log_event record_event
  Plans-emit_for attempt i none d = refl
  Plans-emit_for attempt i (some w) d = refl

  Plans-emit_result :
      (attempt : ℕ) (w : Option Json) (d : Database) → Plans d (emit_result host u attempt w d)
  unfolding Plans emit_result
  Plans-emit_result attempt w d =
      option_case (Plans d) (get_issue u d) (d, issue_missing u)
        (λ i. emit_for host u attempt i w d) refl (λ i. Plans-emit_for attempt i w d)

  plan_runs-note_fingerprint :
      (f : Option String) (d : Database) → (note_fingerprint u f d).plan_runs ≡ d.plan_runs
  unfolding note_fingerprint update_last_blocker_fingerprint set_issue
  plan_runs-note_fingerprint none d = refl
  plan_runs-note_fingerprint (some f) d =
      if_case (λ (x : Database). x.plan_runs ≡ d.plan_runs) (f == "") (λ _. refl) (λ _. refl)

  Plans-session :
      (attempt : ℕ) (p : SessionCompleted) (d : Database)
      → Plans d (session_completed host u attempt p d)
  unfolding Plans session_completed update_last_blocker_fingerprint set_issue log_event record_event
  Plans-session attempt p d =
      let d1 = log_event host.env u "session_completed" _ _ d in
      let d2 = insert_items host u attempt [] (get_or p.artifacts []) d1 in
      let d3 = note_fingerprint u p.blocker_fingerprint d2 in
      let before : d3.plan_runs ≡ d.plan_runs =
        plan_runs-note_fingerprint p.blocker_fingerprint d2
        ∙ plan_runs-insert_items host u attempt [] (get_or p.artifacts []) d1 in
      if_case (λ (x : Database). x.plan_runs ≡ d.plan_runs)
        (p.semantics == "success" || p.semantics == "handoff") (λ _. before) (λ _. before)

  -- No tool that an agent calls for an issue of a plan run, whatever its parameters, adds or changes a plan
  -- run: plans do not nest.
  pub handle_tool-plan_runs :
      (template name : String) (params : Option Json) (attempt : ℕ) (d : Database)
      → in_plan (get_issue u d) ≡ true
      → (handle_tool host template name params u attempt d).0.plan_runs ≡ d.plan_runs
  unfolding Plans report_event report_goal_state write_scratchpad update_issue_scratchpad set_issue
      log_event record_event
  handle_tool-plan_runs template name params attempt d nested =
      handle_tool-ByTool (Plans d) host template name params u attempt d (record {
        reads = λ r. refl;
        event = λ p. refl;
        goal = λ p. refl;
        transition = λ p. Plans-transition p d;
        result = λ w. Plans-emit_result attempt w d;
        spawn = λ h p outside. cc;
        scratchpad = λ text. refl;
        session = λ p. Plans-session attempt p d;
      })
