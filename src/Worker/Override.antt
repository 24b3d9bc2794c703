-- ===== src/Worker/Override.antt =====
-- What the agent reported through its tools, against what its exit says: the part of runWorker in
-- src/orchestrator/worker.ts between deriveCompletion and the choice of the next state.
use nano_symphony.Common.{
  ℕ, String, Bool, false, ◌&&◌, not, Option, none, some, [], ◌∷◌, ◌==◌, nat_eq, if◌then◌else◌,
  get_or, or_else, is_some, is_text, concat, show_nat,
}
use nano_symphony.Json.{Json, bool, num, str, whole, get, get_text, object}
use nano_symphony.Tracker.Types.{Event, Database}
use nano_symphony.Tracker.Events.{get_latest_event_by_kind}
use nano_symphony.Worker.Env.{Env, log_event}
use nano_symphony.Worker.Completion.{Completion, truthy, failed_code}

-- the variables `semantics`, `summary` and `blockerFingerprint`
pub record Report : Type 0 where
  pub semantics : String
  pub summary : Option String
  pub fingerprint : Option String

unfoldable pub report_of : Completion → Report
report_of c = record {
  semantics = c.semantics;
  summary = c.summary;
  fingerprint = c.blocker_fingerprint;
}

-- a field of the payload that is a text and not empty
abbrev pub field_text : String → Json → Option String
field_text k p = truthy (get_text k p)

-- the report with the agent's words in the place of the derived ones
unfoldable pub taken : Option String → Json → String → Report → Report
taken cause p proposed r = record {
  semantics = proposed;
  summary = elim (field_text "summary" p) [
    | some s ↦ some s
    | none ↦ if is_text cause "no_result_payload" then none else r.summary
  ];
  fingerprint = or_else (field_text "blocker_fingerprint" p) r.fingerprint;
}

unfoldable pub rejected : Env → String → ℕ → String → ℕ → Report → Database → Database
rejected env u attempt proposed code r =
    log_event env u "semantics_override_rejected"
      (concat (
        "session_completed claimed success but process exited with code "
        ∷ show_nat code
        ∷ "; using derived semantics"
        ∷ []))
      (some (
        object (
          ("proposed", str proposed)
          ∷ ("derived", str r.semantics)
          ∷ ("exit_code", whole code)
          ∷ ("attempt", whole attempt)
          ∷ [])))

-- `code` is the exit code where it is not 0
unfoldable pub weigh :
    Env
    → String
    → ℕ
    → Option String
    → Json
    → String
    → Option ℕ
    → Report
    → Database
    → Report × Database
unfolding taken rejected
weigh env u attempt cause p proposed none r d = (taken cause p proposed r, d)
weigh env u attempt cause p proposed (some code) r d =
    if proposed == "success"
    then (r, rejected env u attempt proposed code r d)
    else (taken cause p proposed r, d)

abbrev pub payload_of : Option Event → Option Json
payload_of none = none
payload_of (some e) = e.payload_json

-- the last `session_completed` of the issue, of whatever attempt; a field of the payload that is no text, which
-- the tool of that name does not write, counts as missing here
unfoldable pub apply_session :
    Env → String → ℕ → Option ℕ → Option String → Report → Database → Report × Database
unfolding weigh
apply_session env u attempt exit_code cause r d =
    elim (payload_of (get_latest_event_by_kind u "session_completed" d)) [
      | none ↦ (r, d)
      | some p ↦ elim (field_text "semantics" p) [
        | none ↦ (r, d)
        | some proposed ↦ weigh env u attempt cause p proposed (failed_code exit_code) r d
      ]
    ]

-- `validated === 1 || validated === true`
abbrev is_validated : Option Json → Bool
is_validated (some (bool b)) = b
is_validated (some (num n)) = elim n.floor [
  | nano_symphony.Common.Int.pos k ↦ nat_eq k 1 && nat_eq n.rest 0
  | nano_symphony.Common.Int.negsuc k ↦ false
]
is_validated _ = false

abbrev pub emitted_valid : Option Event → Bool
emitted_valid e = elim (payload_of e) [ none ↦ false | some p ↦ is_validated (get "validated" p) ]

unfoldable pub apply_emitted :
    Env → String → ℕ → Option String → Report → Database → Report × Database
apply_emitted env u attempt cause r d =
    if (r.semantics == "abandoned" && is_text cause "no_result_payload")
      && (not (is_some (get_latest_event_by_kind u "session_completed" d))
          && emitted_valid (get_latest_event_by_kind u "result_emitted" d))
    then (
      record r { semantics = "success"; summary = none },
      log_event env u "semantics_fallback_result_emitted"
          "No session_completed but result_emitted with validated=1; treating as success"
          (some (object (("attempt", whole attempt) ∷ []))) d,
    )
    else (r, d)

unfoldable pub note_missing : Env → String → ℕ → Option String → Report → Database → Database
note_missing env u attempt cause r d =
    if is_text cause "no_result_payload" && not (r.semantics == "success")
    then log_event env u "no_result_payload" (get_or r.summary "no result payload")
        (some (object (("attempt", whole attempt) ∷ []))) d
    else d
