-- ===== src/Mcp/Tools/States.antt =====
-- The state of the issue that a tool of src/mcp/tools.ts is called for.
use nano_symphony.Common.{
  ℕ, String, ◌≡◌, refl, ap, ◌∙◌, ◌⊎◌, inl, inr, Bool, true, false, ◌||◌, not, Option, none, some,
  List, [], ◌∷◌, arith, ◌==◌, eq_refl, get_or, one_of, find_row, find_row-update_rows,
}
use mathlib.Core.Option
use nano_symphony.Json.{Json}
use nano_symphony.Tracker.Types.{Issue, Database, issue_key}
use nano_symphony.Tracker.Issues.{
  get_issue, set_issue, update_issue_state, update_issue_plan_run_id, update_issue_scratchpad,
  update_last_blocker_fingerprint,
}
use nano_symphony.Tracker.Runs.{release_issue, update_last_issue_state, set_run}
use nano_symphony.Tracker.Events.{record_event}
use nano_symphony.Tracker.PlanRuns.{insert_plan_run}
use nano_symphony.Tracker.Results.{upsert_issue_result}
use nano_symphony.Tracker.Artifacts.{insert_artifact}
use nano_symphony.Worker.Env.{log_event}
use nano_symphony.Mcp.Tools.Host.{Host}
use nano_symphony.Mcp.Tools.Artifacts.{ArtifactItem}
use nano_symphony.Mcp.Tools.Schemas.{SuggestStateTransition, SpawnPlanRun, SessionCompleted}
use nano_symphony.Mcp.Tools.Reads.{issue_missing}
use nano_symphony.Mcp.Tools.Effects.{
  Handled, report_event, report_goal_state, suggest_state_transition, suggest_transition_forbidden,
  suggest_transition_allowed, emit_for, emit_result,
}
use nano_symphony.Mcp.Tools.Session.{
  insert_item, insert_items, is_seen, now_seen, dedup_path, note_fingerprint, session_completed,
}
use nano_symphony.Mcp.Tools.Handle.{
  pause_caller, insert_spawned, spawn_plan_run, run_id_of, write_scratchpad, handle_tool,
}
use nano_symphony.Mcp.Tools.Cases.{if_case, handle_tool-ByTool, option_case}

-- the state of an issue, where there is one
abbrev pub state_of : String → Database → Option String
state_of u d = Option.map (λ i. i.state) (find_row issue_key u d.issues)

map-kept :
    (f : Issue → Issue) (o : Option Issue)
    → ((i : Issue) → (f i).state ≡ i.state)
    → Option.map (λ i. i.state) (Option.map f o) ≡ Option.map (λ i. i.state) o
map-kept f none h = refl
map-kept f (some i) h = ap some (h i)

pub map-moved :
    (f : Issue → Issue) (s : String) (o : Option Issue)
    → ((i : Issue) → (f i).state ≡ s)
    → Option.map (λ i. i.state) (Option.map f o) ≡ Option.map (λ _. s) (Option.map (λ i. i.state) o)
map-moved f s none h = refl
map-moved f s (some i) h = ap some (h i)

-- a write to the issue that leaves its state
pub state_of-set_issue :
    (u : String) (f : Issue → Issue) (d : Database)
    → ((i : Issue) → issue_key (f i) ≡ issue_key i)
    → ((i : Issue) → (f i).state ≡ i.state)
    → state_of u (set_issue u f d) ≡ state_of u d
unfolding set_issue
state_of-set_issue u f d same kept =
    rw (find_row-update_rows issue_key u u f same d.issues, eq_refl u)
      (map-kept f (find_row issue_key u d.issues) kept)

pub state_of-update_issue_state :
    (u : String) (now : ℕ) (s : String) (d : Database)
    → state_of u (update_issue_state now u s d) ≡ Option.map (λ _. s) (state_of u d)
unfolding update_issue_state set_issue
state_of-update_issue_state u now s d =
    let f : Issue → Issue = λ i. record i { state = s; updated_at = now } in
    rw (find_row-update_rows issue_key u u f (λ i. refl) d.issues, eq_refl u)
      (map-moved f s (find_row issue_key u d.issues) (λ i. refl))

issues-insert_items :
    (host : Host) (u : String) (attempt : ℕ) (seen : List String) (items : List ArtifactItem)
    (d : Database)
    → (insert_items host u attempt seen items d).issues ≡ d.issues
unfolding insert_items insert_item insert_artifact
issues-insert_items host u attempt seen [] d = refl
issues-insert_items host u attempt seen (a ∷ items) d =
    if_case (λ (x : Database). x.issues ≡ d.issues) (is_seen (dedup_path a) seen)
      (λ _. issues-insert_items host u attempt seen items d)
      (λ _.
        issues-insert_items host u attempt (now_seen (dedup_path a) seen) items
          (insert_item host u attempt a d))

-- the states that tools give
abbrev pub working_states : List String
working_states = "todo" ∷ "in_progress" ∷ "in_review" ∷ "awaiting_plan" ∷ []

-- the state is kept, or becomes one of the working states
abbrev pub StaysOpen : String → Database → Database → Type 0
StaysOpen u d d' =
    (state_of u d' ≡ state_of u d)
    ⊎ ((s : String) × (one_of s working_states ≡ true)
        × (state_of u d' ≡ Option.map (λ _. s) (state_of u d)))

module _ (host : Host) (u : String) where
  Opens : Database → Handled → Type 0
  Opens d h = StaysOpen u d h.0

  working :
      (s : String)
      → not (one_of s suggest_transition_allowed) ≡ false
      → one_of s working_states ≡ true
  working s h = ground arith

  Opens-transition :
      (p : SuggestStateTransition) (d : Database)
      → Opens d (suggest_state_transition host.env u p d)
  unfolding Opens suggest_state_transition log_event record_event
  Opens-transition p d =
      if_case (Opens d) (one_of p.suggested_state suggest_transition_forbidden) (λ _. inl refl)
        (λ _.
          if_case (Opens d) (not (one_of p.suggested_state suggest_transition_allowed))
            (λ _. inl refl)
            (λ e. inr (
              p.suggested_state,
              working p.suggested_state e,
              state_of-update_issue_state u host.env.now p.suggested_state d,
            )))

  Opens-spawn :
      (is_handoff : Bool) (p : SpawnPlanRun) (d : Database)
      → Opens d (spawn_plan_run host u is_handoff p d)
  unfolding Opens spawn_plan_run insert_spawned insert_plan_run log_event record_event pause_caller
      update_last_issue_state release_issue set_run update_issue_plan_run_id
  Opens-spawn false p d = inl refl
  Opens-spawn true p d =
      let spawned = insert_spawned host u true p d in
      let linked = update_issue_plan_run_id host.env.now u (some (run_id_of host)) spawned in
      inr (
        "awaiting_plan",
        refl,
        state_of-update_issue_state u host.env.now "awaiting_plan" linked
            ∙ ap (λ o. Option.map (λ _. "awaiting_plan") o)
                (state_of-set_issue u
                  (λ i. record i { plan_run_id = some (run_id_of host); updated_at = host.env.now })
                  spawned (λ i. refl) (λ i. refl)),
      )

  Opens-emit_for :
      (attempt : ℕ) (i : Issue) (w : Option Json) (d : Database)
      → Opens d (emit_for host u attempt i w d)
  unfolding Opens emit_for upsert_issue_result log_event record_event
  Opens-emit_for attempt i none d = inl refl
  Opens-emit_for attempt i (some w) d = inl refl

  Opens-emit_result :
      (attempt : ℕ) (w : Option Json) (d : Database) → Opens d (emit_result host u attempt w d)
  unfolding Opens emit_result get_issue
  Opens-emit_result attempt w d =
      option_case (Opens d) (get_issue u d) (d, issue_missing u)
        (λ i. emit_for host u attempt i w d) (inl refl) (λ i. Opens-emit_for attempt i w d)

  state_of-note_fingerprint :
      (f : Option String) (d : Database) → state_of u (note_fingerprint u f d) ≡ state_of u d
  unfolding note_fingerprint update_last_blocker_fingerprint
  state_of-note_fingerprint none d = refl
  state_of-note_fingerprint (some f) d =
      if_case (λ (x : Database). state_of u x ≡ state_of u d) (f == "") (λ _. refl)
        (λ _.
          state_of-set_issue u (λ i. record i { last_blocker_fingerprint = some f }) d (λ i. refl)
            (λ i. refl))

  Opens-session :
      (attempt : ℕ) (p : SessionCompleted) (d : Database)
      → Opens d (session_completed host u attempt p d)
  unfolding Opens session_completed update_last_blocker_fingerprint log_event record_event
  Opens-session attempt p d =
      let d1 = log_event host.env u "session_completed" _ _ d in
      let d2 = insert_items host u attempt [] (get_or p.artifacts []) d1 in
      let d3 = note_fingerprint u p.blocker_fingerprint d2 in
      let before : state_of u d3 ≡ state_of u d =
        state_of-note_fingerprint p.blocker_fingerprint d2
        ∙ ap (λ is. Option.map (λ i. i.state) (find_row issue_key u is))
            (issues-insert_items host u attempt [] (get_or p.artifacts []) d1) in
      inl (
        if_case (λ (x : Database). state_of u x ≡ state_of u d)
          (p.semantics == "success" || p.semantics == "handoff")
          (λ _.
            state_of-set_issue u (λ i. record i { last_blocker_fingerprint = none }) d3 (λ i. refl)
              (λ i. refl)
            ∙ before)
          (λ _. before))

  -- No tool finishes or cancels the issue it is called for: its state stays, or it becomes one of todo,
  -- in_progress, in_review and awaiting_plan.
  pub handle_tool-StaysOpen :
      (template name : String) (params : Option Json) (attempt : ℕ) (d : Database)
      → StaysOpen u d (handle_tool host template name params u attempt d).0
  unfolding Opens report_event report_goal_state write_scratchpad update_issue_scratchpad log_event
      record_event
  handle_tool-StaysOpen template name params attempt d =
      handle_tool-ByTool (Opens d) host template name params u attempt d (record {
        reads = λ r. inl refl;
        event = λ p. inl refl;
        goal = λ p. inl refl;
        transition = λ p. Opens-transition p d;
        result = λ w. Opens-emit_result attempt w d;
        spawn = λ h p _. Opens-spawn h p d;
        scratchpad = λ text. inl (
            state_of-set_issue u
              (λ i. record i { scratchpad = some text; updated_at = host.env.now }) d (λ i. refl)
              (λ i. refl));
        session = λ p. Opens-session attempt p d;
      })
