-- ===== src/Tests/Calling.antt =====
-- Tools that agents call, at concrete parameters.

use nano_symphony.Common.{
  ℕ, String, ◌≡◌, refl, ◌≢◌, true, none, some, List, [], ◌∷◌, arith, eq_iff, find_row, update_rows,
  show_nat,
}
use nano_symphony.Json.{
  Json, null, str, whole, arr, obj, nil, cons, end, field, Fields, get_field, object,
}
use nano_symphony.Tracker.Types.{Issue, Database}
use nano_symphony.Tracker.Issues.{get_issue}
use nano_symphony.Tracker.PlanRuns.{get_plan_run}
use nano_symphony.Tracker.Results.{get_latest_issue_result}
use nano_symphony.Tracker.Isolation.{Same}
use nano_symphony.Plan.Schema.{Texts}
use nano_symphony.Plan.Schema.Check.{validate_node, validate_schema}
use nano_symphony.Plan.Schema.Meaning.{IsTyped, IsBounded, HasRequired, validate_schema-IsTyped}
use nano_symphony.Plan.Routes.{delete_route}
use nano_symphony.Mcp.Auth.{Grant, no_tokens, issue_token}
use nano_symphony.Mcp.Server.{Body}
use nano_symphony.Mcp.Uses.{Use, granted, verified, apply_all}
use nano_symphony.Mcp.Serve.{serve, serve-Same}
use nano_symphony.Mcp.Tools.Host.{Host, parsed}
use nano_symphony.Mcp.Tools.Schemas.{SpawnPlanRun}
use nano_symphony.Mcp.Tools.Effects.{check_result, emit_result}
use nano_symphony.Mcp.Tools.Handle.{handle_tool, spawn_plan_run, run_id_of}
use nano_symphony.Mcp.Tools.States.{StaysOpen, state_of, handle_tool-StaysOpen}
use nano_symphony.Mcp.Tools.PlanRuns.{handle_tool-plan_runs}
use nano_symphony.Mcp.Tools.Emitting.{get_latest_issue_result-emit_result}
use nano_symphony.Mcp.Tools.Handoff.{delete_route-spawn_plan_run}
use nano_symphony.Mcp.Tools.Effects.{with_params, suggest_state_transition}
use nano_symphony.Mcp.Tools.Schemas.{read_transition}
use nano_symphony.Tracker.Issues.{update_issue_state, set_issue}
use nano_symphony.Tracker.Events.{record_event}
use nano_symphony.Worker.Env.{log_event}
use nano_symphony.Tests.Samples.{sample_env, issue_of, run_of, tables, busy}

abbrev texts : Texts
texts = record { text_length = λ s. 8; print = λ v. "x"; stringify = λ v. "x"; sort = λ ks. ks }

-- { "type": "object", "required": ["x"] }
abbrev schema : Fields
schema = field "type" (str "object") (field "required" (arr (cons (str "x") nil)) end)

-- { "x": 1 }
abbrev data_x : Json
data_x = object (("x", whole 1) ∷ [])

abbrev host : Host
host = record {
  env = sample_env;
  texts = texts;
  artifact_id = show_nat;
  short_id = "id";
  byte_length = λ s. 8;
  slice = λ n s. s;
  split_lines = λ s. s ∷ [];
  includes = λ s t. true;
  section_of = λ s t. none;
  parse_json = λ s. parsed (obj schema);
  is_url = λ s. true;
  passthrough = λ v. v;
  extension = λ s. "";
}

abbrev two : Database
two =
    tables (issue_of "a" "todo" "high" ∷ issue_of "b" "todo" "low" ∷ [])
      (run_of "a" "claimed" "" ∷ [])

abbrev suggestion : Json
suggestion = object (("suggested_state", str "in_review") ∷ ("reason", str "ready") ∷ [])

abbrev grant : Grant
grant = record { issue_uuid = "a"; attempt = 2; scope = none; ttl_ms = some 100000 }

abbrev meanwhile : List Use
meanwhile = granted "u" 20 grant ∷ verified "v" 30 ∷ []

abbrev body : Body
body = record {
  method = "tools/call";
  id = null;
  name = some "symphony.suggest_state_transition";
  args = some suggestion;
  protocol_version = none;
}

a_not_b : ◌≢◌ {A = String} "a" "b"
a_not_b = ground (arith, eq_iff "a" "b")

serve-Same_example :
    Same "b" two
      (serve host "1.0" "" "invalid"
        (some "t")
        body
        (apply_all meanwhile (issue_token "t" 10 grant no_tokens))
        two).0
serve-Same_example =
    serve-Same host "1.0" "" "invalid" "t" 10 grant no_tokens meanwhile body "b" two
      (refl, (refl, tt)) a_not_b

handle_tool-StaysOpen_example :
    StaysOpen "a" two
      (handle_tool host "" "symphony.suggest_state_transition" (some suggestion) "a" 2 two).0
handle_tool-StaysOpen_example =
    handle_tool-StaysOpen host "a" "" "symphony.suggest_state_transition" (some suggestion) 2 two

-- the suggestion is followed
followed :
    state_of "a"
      (handle_tool host "" "symphony.suggest_state_transition" (some suggestion) "a" 2 two).0
    ≡ some "in_review"
unfolding handle_tool with_params read_transition suggest_state_transition update_issue_state
    set_issue log_event record_event find_row update_rows
followed = refl

-- an issue of a plan run
abbrev sub : Issue
sub = record (issue_of "a" "todo" "high") { plan_run_id = some "p"; expected_schema = some "s" }

abbrev in_plan_run : Database
in_plan_run = tables (sub ∷ []) []

handle_tool-plan_runs_example :
    (handle_tool host "" "symphony.spawn_plan_run" none "a" 0 in_plan_run).0.plan_runs ≡ []
unfolding get_issue find_row
handle_tool-plan_runs_example =
    handle_tool-plan_runs host "a" "" "symphony.spawn_plan_run" none 0 in_plan_run refl

get_latest_issue_result-emit_result_example :
    (version : ℕ) × (get_latest_issue_result "a"
        (some 0)
        (emit_result host "a" 0 (some data_x) in_plan_run).0
      ≡ some (record {
        issue_uuid = "a";
        attempt = 0;
        version = version;
        payload = data_x;
        validated = (check_result host (some "s") data_x).0;
        created_at = 1000;
      }))
unfolding get_issue find_row
get_latest_issue_result-emit_result_example =
    get_latest_issue_result-emit_result host "a" 0 sub data_x in_plan_run refl

abbrev plan : SpawnPlanRun
plan = record {
  script = "";
  args = none;
  meta = record { name = "n"; max_issues = 1; max_budget_tokens = none; phases = none };
}

delete_route-spawn_plan_run_example :
    state_of "a"
      (delete_route sample_env (run_id_of host) (spawn_plan_run host "a" true plan busy).0).database
    ≡ some "cancelled"
unfolding get_issue get_plan_run find_row
delete_route-spawn_plan_run_example =
    delete_route-spawn_plan_run host "a" plan (issue_of "a" "todo" "high") busy refl refl

validate_schema-IsTyped_example :
    IsTyped (some (str "object")) data_x
    × IsBounded texts schema data_x
    × HasRequired texts (get_field "required" schema) data_x
unfolding validate_schema validate_node
validate_schema-IsTyped_example = validate_schema-IsTyped texts schema data_x refl refl
