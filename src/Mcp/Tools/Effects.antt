-- ===== src/Mcp/Tools/Effects.antt =====
-- The tools of src/mcp/tools.ts that record, suggest a state or emit a result. A call leaves a database and
-- a result.
use nano_symphony.Common.{
  ℕ, String, Bool, true, false, not, Option, none, some, List, [], ◌∷◌, ◌==◌, if◌then◌else◌, get_or,
  or_else, is_some, one_of, concat, show_nat,
}
use nano_symphony.Json.{Number, Json, null, str, bool, whole, object}
use nano_symphony.Tracker.Types.{Issue, Database}
use nano_symphony.Tracker.Issues.{get_issue, update_issue_state}
use nano_symphony.Tracker.Results.{upsert_issue_result}
use nano_symphony.Worker.Env.{Env, log_event}
use nano_symphony.Plan.Schema.{number_lt, join}
use nano_symphony.Plan.Schema.Check.{ValidationResult, validate_schema}
use nano_symphony.Mcp.Tools.Host.{Host, Parsed, parsed, unparsable}
use nano_symphony.Mcp.Tools.Schemas.{ReportEvent, GoalState, SuggestStateTransition}
use nano_symphony.Mcp.Tools.Reads.{ToolResult, returned, raised, rejected, issue_missing}

abbrev pub Handled : Type 0
Handled = Database × ToolResult

abbrev pub ok : ToolResult
ok = returned (("ok", bool true) ∷ [])

abbrev refused : String → ToolResult
refused message = returned (("ok", bool false) ∷ ("error", str message) ∷ [])

-- `Schema.parse(params)`, which throws before anything is written
unfoldable pub with_params {ℓ} :
    {A : Type ℓ} → Option A → (A → Database → Handled) → Database → Handled
with_params none f d = (d, rejected)
with_params (some p) f d = f p d

unfoldable pub report_event : Env → String → ReportEvent → Database → Handled
report_event env u p d = (log_event env u p.kind p.message p.payload d, ok)

abbrev non_null : Option Json → Option Json
non_null (some null) = none
non_null v = v

-- turns !== undefined && maxTurns !== undefined && turns >= maxTurns
abbrev reached : Option Number → Option Number → Bool
reached (some turns) (some most) = not (number_lt turns most)
reached _ _ = false

unfoldable pub goal_kind : GoalState → String
goal_kind p =
    if is_some (or_else (non_null p.achieved_at) (non_null p.achieved_at_camel))
    then "goal_achieved"
    else if reached (or_else p.turns_evaluated p.turns_evaluated_camel)
        (or_else p.max_turns p.max_turns_camel)
    then "goal_max_turns"
    else "goal_evaluated"

unfoldable pub report_goal_state : Env → String → GoalState → Database → Handled
unfolding goal_kind
report_goal_state env u p d = (
  log_event env u (goal_kind p)
      (get_or (or_else p.last_reason p.last_reason_camel) "Goal state reported") (some p.parsed) d,
  ok,
)

abbrev pub suggest_transition_forbidden : List String
suggest_transition_forbidden = "done" ∷ "cancelled" ∷ []

abbrev pub suggest_transition_allowed : List String
suggest_transition_allowed = "todo" ∷ "in_progress" ∷ "in_review" ∷ []

abbrev suggestion : SuggestStateTransition → String → Option Json
suggestion p outcome = some (
    object (
      ("suggested_state", str p.suggested_state)
      ∷ ("reason", str p.reason)
      ∷ (outcome, bool true)
      ∷ []))

abbrev log_suggestion :
    Env → String → SuggestStateTransition → String → String → Database → Database
log_suggestion env u p message outcome =
    log_event env u "state_transition_suggested" message (suggestion p outcome)

unfoldable pub suggest_state_transition : Env → String → SuggestStateTransition → Database → Handled
suggest_state_transition env u p d =
    let target = p.suggested_state in
    if one_of target suggest_transition_forbidden
    then (
      log_suggestion env u p
          (concat ("Rejected transition to " ∷ target ∷ " (use session_completed instead)" ∷ []))
          "rejected" d,
      refused (
          concat (
            "Cannot transition to '" ∷ target
            ∷ "' via suggest_state_transition; use session_completed instead." ∷ [])),
    )
    else if not (one_of target suggest_transition_allowed)
    then (
      log_suggestion env u p
          (concat ("Rejected transition to unknown/disallowed state '" ∷ target ∷ "'" ∷ []))
          "rejected" d,
      refused (
          concat (
            "Cannot transition to '"
            ∷ target
            ∷ "' via suggest_state_transition; allowed states are: "
            ∷ join ", " suggest_transition_allowed
            ∷ "."
            ∷ [])),
    )
    else (
      log_suggestion env u p (concat ("Transitioned to " ∷ target ∷ [])) "applied"
          (update_issue_state env.now u target d),
      returned (("ok", bool true) ∷ ("state", str target) ∷ []),
    )

-- what the check of a result says: whether it is valid, and the error
abbrev validation : ValidationResult → Bool × Option String
validation r = if r.valid then (true, none) else (false, some (join "; " r.errors))

abbrev against : Host → Json → Parsed → Bool × Option String
against host v (unparsable message) =
    (false, some (concat ("Invalid stored output schema: " ∷ message ∷ [])))
against host v (parsed schema) = validation (validate_schema host.texts schema v)

-- `if (issue.expected_schema)`
unfoldable pub check_result : Host → Option String → Json → Bool × Option String
check_result host none v = (true, none)
check_result host (some s) v = if s == "" then (true, none) else against host v (host.parse_json s)

abbrev flag : Bool → ℕ
flag true = 1
flag false = 0

abbrev error_field : Option String → List (String × Json)
error_field none = []
error_field (some e) = ("validation_error", str e) ∷ []

abbrev emitted : Bool × Option String → ToolResult
emitted (false, some e) =
    if e == ""
    then returned (("ok", bool true) ∷ ("validated", bool true) ∷ [])
    else refused (
        concat
          ("Result does not match output schema: " ∷ e ∷ ". Fix and call emit_result again." ∷ []))
emitted _ = returned (("ok", bool true) ∷ ("validated", bool true) ∷ [])

-- The column of the data is NOT NULL, so missing data throws before the write.
unfoldable pub emit_for : Host → String → ℕ → Issue → Option Json → Database → Handled
unfolding check_result
emit_for host u attempt i none d = (d, raised "NOT NULL constraint failed: issue_results.data")
emit_for host u attempt i (some v) d =
    let checked = check_result host i.expected_schema v in
    let d' = (upsert_issue_result u attempt host.env.now v checked.0 none d).0 in
    (
      log_event host.env u "result_emitted"
          (concat ("Result emitted (validated=" ∷ show_nat (flag checked.0) ∷ ")" ∷ []))
          (some (object (("validated", whole (flag checked.0)) ∷ error_field checked.1))) d',
      emitted checked,
    )

unfoldable pub emit_result : Host → String → ℕ → Option Json → Database → Handled
unfolding emit_for
emit_result host u attempt v d = elim (get_issue u d) [
  | none ↦ (d, issue_missing u)
  | some i ↦ emit_for host u attempt i v d
]
