-- ===== src/Mcp/Tools/Isolation.antt =====
-- The tools of src/mcp/tools.ts and the issues that did not call them.
use nano_symphony.Common.{
  ℕ, String, refl, ◌∙◌, ◌≢◌, inl, inr, Bool, true, false, ◌||◌, not, Option, none, some, List, [],
  ◌∷◌, ◌==◌, ap, ◌≡◌, is_text, if◌then◌else◌, Option-cases, get_or, one_of, find_row,
}
use nano_symphony.Json.{Json}
use nano_symphony.Tracker.Types.{Issue, Database}
use nano_symphony.Tracker.Issues.{
  get_issue, update_issue_state, update_issue_plan_run_id, update_issue_scratchpad,
  update_last_blocker_fingerprint,
}
use nano_symphony.Tracker.Runs.{release_issue, update_last_issue_state}
use nano_symphony.Tracker.PlanRuns.{insert_plan_run, inserted_plan_run}
use nano_symphony.Tracker.Isolation.{
  Same, view, differ, keep-append_one, Same-set_issue, Same-set_run, Same-log_event,
  Same-update_issue_state, Same-release_issue, Same-upsert_issue_result, Same-insert_artifact,
}
use nano_symphony.Worker.Env.{log_event}
use nano_symphony.Mcp.Tools.Host.{Host}
use nano_symphony.Mcp.Tools.Artifacts.{ArtifactItem}
use nano_symphony.Mcp.Tools.Schemas.{SuggestStateTransition, SpawnPlanRun, SessionCompleted}
use nano_symphony.Mcp.Tools.Effects.{
  Handled, report_event, report_goal_state, suggest_state_transition, suggest_transition_forbidden,
  suggest_transition_allowed, check_result, emit_for, emit_result,
}
use nano_symphony.Mcp.Tools.Session.{
  insert_item, insert_items, is_seen, now_seen, dedup_path, note_fingerprint, session_completed,
}
use nano_symphony.Mcp.Tools.Handle.{
  pause_caller, insert_spawned, spawn_plan_run, spawn_input, run_id_of, write_scratchpad,
  handle_tool,
}
use nano_symphony.Mcp.Tools.Cases.{if_case, handle_tool-ByTool}

module _ (host : Host) (u v : String) (apart : u ≢ v) where
  Keeps : Database → Handled → Type 0
  Keeps d h = Same v d h.0

  Keeps-transition :
      (p : SuggestStateTransition) (d : Database)
      → Keeps d (suggest_state_transition host.env u p d)
  unfolding Keeps suggest_state_transition
  Keeps-transition p d =
      let moved = update_issue_state host.env.now u p.suggested_state d in
      if_case (Keeps d) (one_of p.suggested_state suggest_transition_forbidden)
        (λ _. Same-log_event u v apart host.env _ _ _ d)
        (λ _.
          if_case (Keeps d) (not (one_of p.suggested_state suggest_transition_allowed))
            (λ _. Same-log_event u v apart host.env _ _ _ d)
            (λ _.
              Same-log_event u v apart host.env _ _ _ moved
              ∙ Same-update_issue_state u v apart host.env.now p.suggested_state d))

  Keeps-emit_for :
      (attempt : ℕ) (i : Issue) (w : Option Json) (d : Database)
      → Keeps d (emit_for host u attempt i w d)
  unfolding Keeps emit_for
  Keeps-emit_for attempt i none d = refl
  Keeps-emit_for attempt i (some w) d =
      Same-log_event u v apart host.env "result_emitted" _ _ _
      ∙ Same-upsert_issue_result u v apart attempt host.env.now w
          (check_result host i.expected_schema w).0 d

  Keeps-emit_result :
      (attempt : ℕ) (w : Option Json) (d : Database) → Keeps d (emit_result host u attempt w d)
  unfolding Keeps emit_result find_row
  Keeps-emit_result attempt w d = elim (Option-cases (get_issue u d)) [
    | inl e ↦ rw (emit_result, e) refl
    | inr (i, e) ↦ rw (emit_result, e) (Keeps-emit_for attempt i w d)
  ]

  Same-pause_caller : (id : String) (d : Database) → Same v d (pause_caller host.env u id d)
  unfolding pause_caller update_last_issue_state update_issue_plan_run_id
  Same-pause_caller id d =
      let linked = update_issue_plan_run_id host.env.now u (some id) d in
      let paused = update_issue_state host.env.now u "awaiting_plan" linked in
      let released = release_issue u "released" paused in
      Same-set_run u v apart (λ r. record r { last_issue_state = "awaiting_plan" }) released
        (λ r. refl)
      ∙ (Same-release_issue u v apart "released" paused
          ∙ (Same-update_issue_state u v apart host.env.now "awaiting_plan" linked
              ∙ Same-set_issue u v apart
                  (λ i. record i { plan_run_id = some id; updated_at = host.env.now }) d
                  (λ i. refl)))

  Same-insert_spawned :
      (is_handoff : Bool) (p : SpawnPlanRun) (d : Database)
      → Same v d (insert_spawned host u is_handoff p d)
  unfolding insert_spawned insert_plan_run inserted_plan_run
  Same-insert_spawned is_handoff p d =
      Same-log_event u v apart host.env "plan_run_spawned" _ _
        (insert_plan_run (spawn_input host u is_handoff p) host.env.now d)
      ∙ ap (λ x. record (view v d) { plan_runs = x })
          (keep-append_one (λ r. is_text r.caller_issue_uuid v) d.plan_runs _ (other is_handoff))
    where
      other : (b : Bool) → is_text (if b then some u else none) v ≡ false
      other true = differ u v apart
      other false = refl

  Keeps-spawn :
      (is_handoff : Bool) (p : SpawnPlanRun) (d : Database)
      → Keeps d (spawn_plan_run host u is_handoff p d)
  unfolding Keeps spawn_plan_run
  Keeps-spawn false p d = Same-insert_spawned false p d
  Keeps-spawn true p d =
      Same-pause_caller (run_id_of host) (insert_spawned host u true p d)
      ∙ Same-insert_spawned true p d

  Same-insert_items :
      (attempt : ℕ) (seen : List String) (items : List ArtifactItem) (d : Database)
      → Same v d (insert_items host u attempt seen items d)
  unfolding insert_items insert_item
  Same-insert_items attempt seen [] d = refl
  Same-insert_items attempt seen (a ∷ items) d =
      if_case (Same v d) (is_seen (dedup_path a) seen) (λ _. Same-insert_items attempt seen items d)
        (λ _.
          Same-insert_items attempt (now_seen (dedup_path a) seen) items
            (insert_item host u attempt a d)
          ∙ Same-insert_artifact u v apart host.byte_length _ host.env.now _ d refl)

  Same-fingerprint :
      (f : Option String) (d : Database) → Same v d (update_last_blocker_fingerprint u f d)
  unfolding update_last_blocker_fingerprint
  Same-fingerprint f d =
      Same-set_issue u v apart (λ i. record i { last_blocker_fingerprint = f }) d (λ i. refl)

  Same-note_fingerprint : (f : Option String) (d : Database) → Same v d (note_fingerprint u f d)
  unfolding note_fingerprint
  Same-note_fingerprint none d = refl
  Same-note_fingerprint (some f) d =
      if_case (Same v d) (f == "") (λ _. refl) (λ _. Same-fingerprint (some f) d)

  Keeps-session :
      (attempt : ℕ) (p : SessionCompleted) (d : Database)
      → Keeps d (session_completed host u attempt p d)
  unfolding Keeps session_completed
  Keeps-session attempt p d =
      let d1 = log_event host.env u "session_completed" _ _ d in
      let d2 = insert_items host u attempt [] (get_or p.artifacts []) d1 in
      let d3 = note_fingerprint u p.blocker_fingerprint d2 in
      let before : Same v d d3 =
        Same-note_fingerprint p.blocker_fingerprint d2
        ∙ (Same-insert_items attempt [] (get_or p.artifacts []) d1
            ∙ Same-log_event u v apart host.env "session_completed" _ _ d) in
      if_case (Same v d) (p.semantics == "success" || p.semantics == "handoff")
        (λ _. Same-fingerprint none d3 ∙ before) (λ _. before)

  -- A tool that is called for one issue changes nothing that the tables hold of another: the issue itself,
  -- its run, labels, events, results, artifacts, comments, calls, metrics, plan runs and blockers stay. The
  -- states that are noted of the blockers may change.
  pub handle_tool-Same :
      (template name : String) (params : Option Json) (attempt : ℕ) (d : Database)
      → Same v d (handle_tool host template name params u attempt d).0
  unfolding Keeps report_event report_goal_state write_scratchpad update_issue_scratchpad
  handle_tool-Same template name params attempt d =
      handle_tool-ByTool (Keeps d) host template name params u attempt d (record {
        reads = λ r. refl;
        event = λ p. Same-log_event u v apart host.env _ _ _ d;
        goal = λ p. Same-log_event u v apart host.env _ _ _ d;
        transition = λ p. Keeps-transition p d;
        result = λ w. Keeps-emit_result attempt w d;
        spawn = λ h p _. Keeps-spawn h p d;
        scratchpad = λ text.
            Same-log_event u v apart host.env _ _ _
              (update_issue_scratchpad host.env.now u (some text) d)
            ∙ Same-set_issue u v apart
                (λ i. record i { scratchpad = some text; updated_at = host.env.now }) d (λ i. refl);
        session = λ p. Keeps-session attempt p d;
      })
