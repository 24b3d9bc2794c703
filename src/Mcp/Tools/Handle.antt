-- ===== src/Mcp/Tools/Handle.antt =====
-- `handleTool` of src/mcp/tools.ts, with the tools that spawn plan runs and that complete a session. The
-- template of the workflow is an argument, and `params` the parsed JSON of the request, if it has any.
use nano_symphony.Common.{
  ℕ, String, Bool, true, false, ◌&&◌, not, Option, none, some, List, [], ◌∷◌, ◌==◌, if◌then◌else◌,
  one_of, concat, show_nat,
}
use nano_symphony.Json.{Json, str, bool, whole, object}
use nano_symphony.Tracker.Types.{Issue, Database}
use nano_symphony.Tracker.Issues.{
  get_issue, update_issue_state, update_issue_plan_run_id, update_issue_scratchpad,
}
use nano_symphony.Tracker.Runs.{release_issue, update_last_issue_state}
use nano_symphony.Tracker.PlanRuns.{PlanRunInput, insert_plan_run, wall_time_default_ms}
use nano_symphony.Worker.Env.{Env, log_event}
use nano_symphony.Mcp.Tools.Host.{Host}
use nano_symphony.Mcp.Tools.Session.{session_completed}
use nano_symphony.Mcp.Tools.Fields.{Reader, ◌>>=◌, an_object}
use nano_symphony.Mcp.Tools.Schemas.{
  SpawnPlanRun, meta_json, read_report_event, read_goal_state, read_section, read_transition,
  read_emit_result, read_spawn, read_get_artifact, read_scratchpad, read_session,
}
use nano_symphony.Mcp.Tools.Reads.{
  ToolResult, returned, raised, fetch_issue, list_related_artifacts, read_artifact_as,
  workflow_section,
}
use nano_symphony.Mcp.Tools.Effects.{
  Handled, ok, with_params, report_event, report_goal_state, suggest_state_transition, emit_result,
}

-- Pauses the caller until its plan run completes.
unfoldable pub pause_caller : Env → String → String → Database → Database
pause_caller env u run_id d = update_last_issue_state u "awaiting_plan" (
    release_issue u "released" (
      update_issue_state env.now u "awaiting_plan"
        (update_issue_plan_run_id env.now u (some run_id) d)))

abbrev pub run_id_of : Host → String
run_id_of host = concat ("RUN-" ∷ show_nat host.env.now ∷ "-" ∷ host.short_id ∷ [])

abbrev pub spawn_input : Host → String → Bool → SpawnPlanRun → PlanRunInput
spawn_input host u is_handoff p = record {
  id = run_id_of host;
  caller_issue_uuid = (if is_handoff then some u else none);
  script = p.script;
  meta = meta_json p.meta;
  args = p.args;
  wall_time_ms = some wall_time_default_ms;
}

-- the plan run and its event
unfoldable pub insert_spawned : Host → String → Bool → SpawnPlanRun → Database → Database
insert_spawned host u is_handoff p d =
    log_event host.env u "plan_run_spawned" (concat ("Plan run spawned: " ∷ run_id_of host ∷ []))
      (some (
        object (
          ("run_id", str (run_id_of host))
          ∷ ("handoff", bool is_handoff)
          ∷ ("plan_name", str p.meta.name)
          ∷ [])))
      (insert_plan_run (spawn_input host u is_handoff p) host.env.now d)

unfoldable pub spawn_plan_run : Host → String → Bool → SpawnPlanRun → Database → Handled
unfolding pause_caller insert_spawned
spawn_plan_run host u is_handoff p d =
    let id = run_id_of host in
    let spawned = insert_spawned host u is_handoff p d in
    (
      if is_handoff then pause_caller host.env u id spawned else spawned,
      returned (("ok", bool true) ∷ ("run_id", str id) ∷ ("handoff", bool is_handoff) ∷ []),
    )

unfoldable pub write_scratchpad : Host → String → String → Database → Handled
write_scratchpad host u text d = (
  log_event host.env u "scratchpad_updated" "Scratchpad updated"
      (some (object (("length", whole (host.texts.text_length text)) ∷ [])))
      (update_issue_scratchpad host.env.now u (some text) d),
  ok,
)

abbrev pub plan_internal_forbidden : List String
plan_internal_forbidden = "symphony.spawn_plan_run" ∷ "symphony.spawn_plan_run_and_handoff" ∷ []

-- `issue?.plan_run_id`, where it is not empty
abbrev pub in_plan : Option Issue → Bool
in_plan none = false
in_plan (some i) = elim i.plan_run_id [ none ↦ false | some id ↦ not (id == "") ]

-- a schema on the parameters, which may be missing
abbrev pub parse {ℓ} : {A : Type ℓ} → Reader A → Option Json → Option A
parse read params = params >>= read

-- z.object({}).optional()
abbrev an_object_or_none : Option Json → Option (Unit {0})
an_object_or_none none = some tt
an_object_or_none (some v) = an_object v

-- the `switch`
unfoldable pub run_tool : Host → String → String → Option Json → String → ℕ → Database → Handled
unfolding spawn_plan_run write_scratchpad session_completed
run_tool host template name params u attempt d =
    if name == "symphony.fetch_issue"
    then (d, fetch_issue host u attempt d)
    else if name == "symphony.report_event"
    then with_params (parse (read_report_event host) params) (report_event host.env u) d
    else if name == "symphony.report_goal_state"
    then with_params (parse (read_goal_state host) params) (report_goal_state host.env u) d
    else if name == "symphony.request_workflow_section"
    then with_params (parse read_section params)
        (λ s d'. (d', returned (("content", str (workflow_section host template s)) ∷ []))) d
    else if name == "symphony.suggest_state_transition"
    then with_params (parse read_transition params) (suggest_state_transition host.env u) d
    else if name == "symphony.emit_result"
    then with_params (parse read_emit_result params) (emit_result host u attempt) d
    else if one_of name plan_internal_forbidden
    then with_params (parse (read_spawn host) params)
        (spawn_plan_run host u (name == "symphony.spawn_plan_run_and_handoff")) d
    else if name == "symphony.get_artifact"
    then with_params (parse (read_get_artifact host) params)
        (λ p d'. (d', read_artifact_as host p d')) d
    else if name == "symphony.list_related_artifacts"
    then with_params (an_object_or_none params) (λ p d'. (d', list_related_artifacts u d')) d
    else if name == "symphony.update_issue_scratchpad"
    then with_params (parse (read_scratchpad host) params) (write_scratchpad host u) d
    else if name == "symphony.session_completed"
    then with_params (parse (read_session host) params) (session_completed host u attempt) d
    else (d, raised (concat ("Unknown tool: " ∷ name ∷ [])))

abbrev pub not_available : String → ToolResult
not_available name = raised (
    concat (
      "Tool '" ∷ name
      ∷ "' is not available inside a plan run. Use emit_result to return your result; the caller plan can spawn further runs."
      ∷ []))

unfoldable pub handle_tool : Host → String → String → Option Json → String → ℕ → Database → Handled
unfolding run_tool
handle_tool host template name params u attempt d =
    if one_of name plan_internal_forbidden && in_plan (get_issue u d)
    then (d, not_available name)
    else run_tool host template name params u attempt d
