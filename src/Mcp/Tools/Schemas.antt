-- ===== src/Mcp/Tools/Schemas.antt =====
-- The input schemas of src/mcp/tools.ts: each as the record of what it reads, with its reader.
use nano_symphony.Common.{
  ℕ, String, Bool, true, Option, none, some, List, [], ◌∷◌, ◌++◌, leb, one_of,
}
use nano_symphony.Json.{Number, Json, null, str, num, arr, nil, cons, Items, get, object, whole}
use nano_symphony.Mcp.Tools.Fields.{
  Reader, ◌>>=◌, ◌>>◌, guard, an_object, a_text, a_number, at_most, whole_from, an_array,
  an_array_to, field_of, optional, nullish_string, flat,
}
use nano_symphony.Mcp.Tools.Artifacts.{ArtifactItem, read_artifact}
use nano_symphony.Mcp.Tools.Host.{Host}

abbrev max_event_payload_bytes : ℕ
max_event_payload_bytes = 65536

abbrev max_plan_script_size : ℕ
max_plan_script_size = 65536

pub record ReportEvent : Type 0 where
  pub kind : String
  pub message : String
  pub payload : Option Json

-- the refinement of `payload`
abbrev fits_event : Host → Option Json → Bool
fits_event host none = true
fits_event host (some null) = true
fits_event host (some v) =
    leb (host.texts.text_length (host.texts.stringify v)) max_event_payload_bytes

unfoldable pub read_report_event : Host → Reader ReportEvent
read_report_event host v = do
  an_object v
  kind ← field_of a_text "kind" v
  message ← field_of a_text "message" v
  guard (fits_event host (get "payload" v))
  some (record { kind = kind; message = message; payload = get "payload" v })

-- the fields of a goal state that the tool reads, and the whole of it
pub record GoalState : Type 0 where
  pub turns_evaluated : Option Number
  pub turns_evaluated_camel : Option Number
  pub max_turns : Option Number
  pub max_turns_camel : Option Number
  pub achieved_at : Option Json
  pub achieved_at_camel : Option Json
  pub last_reason : Option String
  pub last_reason_camel : Option String
  pub parsed : Json

abbrev a_time : Reader Json
a_time null = some null
a_time (str s) = some (str s)
a_time (num n) = some (num n)
a_time _ = none

unfoldable pub read_goal_state : Host → Reader GoalState
read_goal_state host v = do
  an_object v
  condition ← optional a_text "condition" v
  turns_evaluated ← optional a_number "turns_evaluated" v
  turns_evaluated_camel ← optional a_number "turnsEvaluated" v
  max_turns ← optional a_number "max_turns" v
  max_turns_camel ← optional a_number "maxTurns" v
  achieved_at ← optional a_time "achieved_at" v
  achieved_at_camel ← optional a_time "achievedAt" v
  last_reason ← optional a_text "last_reason" v
  last_reason_camel ← optional a_text "lastReason" v
  some (record {
    turns_evaluated = turns_evaluated;
    turns_evaluated_camel = turns_evaluated_camel;
    max_turns = max_turns;
    max_turns_camel = max_turns_camel;
    achieved_at = achieved_at;
    achieved_at_camel = achieved_at_camel;
    last_reason = last_reason;
    last_reason_camel = last_reason_camel;
    parsed = host.passthrough v;
  })

unfoldable pub read_section : Reader (Option String)
read_section v = do an_object v; optional a_text "section" v

pub record SuggestStateTransition : Type 0 where
  pub suggested_state : String
  pub reason : String

unfoldable pub read_transition : Reader SuggestStateTransition
read_transition v = do
  an_object v
  suggested_state ← field_of a_text "suggested_state" v
  reason ← field_of a_text "reason" v
  some (record { suggested_state = suggested_state; reason = reason })

-- the field `data`, which may be missing
unfoldable pub read_emit_result : Reader (Option Json)
read_emit_result v = do an_object v; some (get "data" v)

abbrev texts_json : List String → Items
texts_json [] = nil
texts_json (s ∷ ss) = cons (str s) (texts_json ss)

-- the plan's metadata, as the schema leaves it
pub record PlanMeta : Type 0 where
  pub name : String
  pub max_issues : ℕ
  pub max_budget_tokens : Option ℕ
  pub phases : Option (List String)

abbrev tokens_field : Option ℕ → List (String × Json)
tokens_field none = []
tokens_field (some n) = ("max_budget_tokens", whole n) ∷ []

abbrev phases_field : Option (List String) → List (String × Json)
phases_field none = []
phases_field (some ps) = ("phases", arr (texts_json ps)) ∷ []

unfoldable pub meta_json : PlanMeta → Json
meta_json m = object (
    ("name", str m.name) ∷ ("max_issues", whole m.max_issues) ∷ tokens_field m.max_budget_tokens
    ++ phases_field m.phases)

unfoldable pub read_meta : Reader PlanMeta
read_meta v = do
  an_object v
  name ← field_of a_text "name" v
  max_issues ← field_of (whole_from 1) "max_issues" v
  guard (leb max_issues 100)
  max_budget_tokens ← optional (whole_from 1) "max_budget_tokens" v
  phases ← optional (an_array a_text) "phases" v
  some (record {
    name = name;
    max_issues = max_issues;
    max_budget_tokens = max_budget_tokens;
    phases = phases;
  })

pub record SpawnPlanRun : Type 0 where
  pub script : String
  pub args : Option Json
  pub meta : PlanMeta

unfoldable pub read_spawn : Host → Reader SpawnPlanRun
unfolding read_meta
read_spawn host v = do
  an_object v
  script ← field_of (at_most host.texts.text_length max_plan_script_size) "script" v
  meta ← field_of read_meta "meta" v
  some (record { script = script; args = get "args" v; meta = meta })

pub record GetArtifact : Type 0 where
  pub artifact_id : String
  pub mode : Option String
  pub lines : Option ℕ
  pub bytes : Option ℕ
  pub pattern : Option String

abbrev a_mode : Reader String
a_mode v = do s ← a_text v; guard (one_of s ("full" ∷ "head" ∷ "tail" ∷ "search" ∷ [])); some s

unfoldable pub read_get_artifact : Host → Reader GetArtifact
read_get_artifact host v = do
  an_object v
  artifact_id ← field_of a_text "artifact_id" v
  guard (leb 1 (host.texts.text_length artifact_id))
  mode ← optional a_mode "mode" v
  lines ← optional (whole_from 1) "lines" v
  bytes ← optional (whole_from 1) "bytes" v
  pattern' ← optional a_text "pattern" v
  some (record {
    artifact_id = artifact_id;
    mode = mode;
    lines = lines;
    bytes = bytes;
    pattern = pattern';
  })

unfoldable pub read_scratchpad : Host → Reader String
read_scratchpad host v = do an_object v; field_of (at_most host.texts.text_length 4096) "text" v

pub record SessionCompleted : Type 0 where
  pub semantics : String
  pub summary : Option String
  pub handoff_state : Option String
  pub blocker_fingerprint : Option String
  pub termination_cause : Option String
  pub artifacts : Option (List ArtifactItem)
  pub follow_ups : Option (List String)

abbrev a_semantics : Reader String
a_semantics v = do
  s ← a_text v
  guard (one_of s ("success" ∷ "needs_retry" ∷ "handoff" ∷ "abandoned" ∷ []))
  some s

abbrev some_metrics : Reader (Unit {0})
some_metrics v = do
  an_object v
  turns_used ← optional a_number "turns_used" v
  files_touched ← optional a_number "files_touched" v
  tests_passed ← optional a_number "tests_passed" v
  tests_failed ← optional a_number "tests_failed" v
  some tt

unfoldable pub read_session : Host → Reader SessionCompleted
unfolding read_artifact
read_session host v = do
  an_object v
  semantics ← field_of a_semantics "semantics" v
  summary ← optional a_text "summary" v
  handoff_state ← optional nullish_string "handoff_state" v
  blocker_fingerprint ← optional a_text "blocker_fingerprint" v
  termination_cause ← optional a_text "termination_cause" v
  artifacts ←
      optional (an_array_to 50 (read_artifact host.texts.text_length host.is_url)) "artifacts" v
  follow_ups ← optional (an_array_to 20 (at_most host.texts.text_length 500)) "follow_ups" v
  metrics ← optional some_metrics "metrics" v
  some (record {
    semantics = semantics;
    summary = summary;
    handoff_state = flat handoff_state;
    blocker_fingerprint = blocker_fingerprint;
    termination_cause = termination_cause;
    artifacts = artifacts;
    follow_ups = follow_ups;
  })
