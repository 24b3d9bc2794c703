-- ===== src/Mcp/Tools/Cases.antt =====
-- What a call of `handleTool` of src/mcp/tools.ts can do, by the tool that runs.
use nano_symphony.Common.{
  ℕ, String, ◌≡◌, refl, Bool, true, false, ◌&&◌, Option, none, some, ◌==◌, if◌then◌else◌, one_of,
}
use nano_symphony.Json.{Json}
use nano_symphony.Tracker.Types.{Database}
use nano_symphony.Tracker.Issues.{get_issue}
use nano_symphony.Mcp.Tools.Host.{Host}
use nano_symphony.Mcp.Tools.Schemas.{
  ReportEvent, GoalState, SuggestStateTransition, SpawnPlanRun, SessionCompleted,
}
use nano_symphony.Mcp.Tools.Reads.{ToolResult}
use nano_symphony.Mcp.Tools.Effects.{
  Handled, with_params, report_event, report_goal_state, suggest_state_transition, emit_result,
}
use nano_symphony.Mcp.Tools.Session.{session_completed}
use nano_symphony.Mcp.Tools.Handle.{
  in_plan, plan_internal_forbidden, spawn_plan_run, write_scratchpad, run_tool, handle_tool,
}

-- a property of what each tool leaves
pub record ByTool (P : Handled → Type 0) (host : Host) (u : String) (attempt : ℕ) (d : Database)
    : Type 0 where
  pub reads : (r : ToolResult) → P (d, r)
  pub event : (p : ReportEvent) → P (report_event host.env u p d)
  pub goal : (p : GoalState) → P (report_goal_state host.env u p d)
  pub transition : (p : SuggestStateTransition) → P (suggest_state_transition host.env u p d)
  pub result : (v : Option Json) → P (emit_result host u attempt v d)
  pub spawn :
      (is_handoff : Bool) (p : SpawnPlanRun)
      → in_plan (get_issue u d) ≡ false
      → P (spawn_plan_run host u is_handoff p d)
  pub scratchpad : (text : String) → P (write_scratchpad host u text d)
  pub session : (p : SessionCompleted) → P (session_completed host u attempt p d)

pub if_case {ℓ} :
    {A : Type ℓ} (P : A → Type 0) (b : Bool) {x y : A}
    → (b ≡ true → P x)
    → (b ≡ false → P y)
    → P (if b then x else y)
if_case P true h k = h refl
if_case P false h k = k refl

pub option_case {ℓ κ} :
    {A : Type ℓ} {B : Type κ} (P : B → Type 0) (o : Option A) (x : B) (f : A → B)
    → P x
    → ((a : A) → P (f a))
    → P (elim o [ none ↦ x | some a ↦ f a ])
option_case P none x f h k = h
option_case P (some a) x f h k = k a

with_params-case {ℓ} :
    {A : Type ℓ} (P : Handled → Type 0) (o : Option A) (f : A → Database → Handled) (d : Database)
    → ((r : ToolResult) → P (d, r))
    → ((p : A) → P (f p d))
    → P (with_params o f d)
unfolding with_params
with_params-case P none f d h k = h _
with_params-case P (some p) f d h k = k p

and-false : (a b : Bool) → (a && b) ≡ false → a ≡ true → b ≡ false
and-false true b h k = h
and-false false b h k = cc

run_tool-ByTool :
    (P : Handled → Type 0) (host : Host) (template name : String) (params : Option Json)
    (u : String) (attempt : ℕ) (d : Database)
    → ByTool P host u attempt d
    → (one_of name plan_internal_forbidden ≡ true → in_plan (get_issue u d) ≡ false)
    → P (run_tool host template name params u attempt d)
unfolding run_tool
run_tool-ByTool P host template name params u attempt d c outside =
    if_case P (name == "symphony.fetch_issue") (λ _. c.reads _)
      (λ _.
        if_case P (name == "symphony.report_event") (λ _. with_params-case P _ _ d c.reads c.event)
          (λ _.
            if_case P (name == "symphony.report_goal_state")
              (λ _. with_params-case P _ _ d c.reads c.goal)
              (λ _.
                if_case P (name == "symphony.request_workflow_section")
                  (λ _. with_params-case P _ _ d c.reads (λ _. c.reads _))
                  (λ _.
                    if_case P (name == "symphony.suggest_state_transition")
                      (λ _. with_params-case P _ _ d c.reads c.transition)
                      (λ _.
                        if_case P (name == "symphony.emit_result")
                          (λ _. with_params-case P _ _ d c.reads c.result)
                          (λ _.
                            if_case P (one_of name plan_internal_forbidden)
                              (λ spawns.
                                with_params-case P _ _ d c.reads
                                  (λ p. c.spawn _ p (outside spawns)))
                              (λ _.
                                if_case P (name == "symphony.get_artifact")
                                  (λ _. with_params-case P _ _ d c.reads (λ _. c.reads _))
                                  (λ _.
                                    if_case P (name == "symphony.list_related_artifacts")
                                      (λ _. with_params-case P _ _ d c.reads (λ _. c.reads _))
                                      (λ _.
                                        if_case P (name == "symphony.update_issue_scratchpad")
                                          (λ _. with_params-case P _ _ d c.reads c.scratchpad)
                                          (λ _.
                                            if_case P (name == "symphony.session_completed")
                                              (λ _. with_params-case P _ _ d c.reads c.session)
                                              (λ _. c.reads _)))))))))))

-- A call is that of one of the tools; one that spawns comes from outside of plan runs.
pub handle_tool-ByTool :
    (P : Handled → Type 0) (host : Host) (template name : String) (params : Option Json)
    (u : String) (attempt : ℕ) (d : Database)
    → ByTool P host u attempt d
    → P (handle_tool host template name params u attempt d)
unfolding handle_tool
handle_tool-ByTool P host template name params u attempt d c =
    if_case P (one_of name plan_internal_forbidden && in_plan (get_issue u d)) (λ _. c.reads _)
      (λ outside. run_tool-ByTool P host template name params u attempt d c (and-false _ _ outside))
