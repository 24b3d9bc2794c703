-- ===== src/Worker/Completion.antt =====
-- What an agent's exit means: deriveCompletion and resolveRoleFromLabels of src/orchestrator/worker.ts,
-- over the payload of src/spawner/agent-result-payload.ts. The regular expressions of
-- normalizeBlockerString are an argument, `normalize`, of a reason that is not empty.
pub mod Laws
use nano_symphony.Common.{
  ℕ, String, Bool, false, ◌||◌, Option, none, some, List, [], ◌∷◌, ◌==◌, nat_eq, if◌then◌else◌,
  get_or, or_else, concat, show_nat,
}
use nano_symphony.Json.{Json}

-- of AgentResultSummary, what the worker reads
pub record Payload : Type 0 where
  pub status : String
  pub reason : Option String
  pub last_reason : Option String  -- `goal_state?.last_reason`
  pub tokens_input : Option ℕ
  pub tokens_output : Option ℕ
  pub cost_usd : Option ℕ
  pub goal_state : Option Json
  pub sandbox : Option Json
  pub blocked_commands_sample : List String

pub record SpawnResult : Type 0 where
  pub exit_code : Option ℕ
  pub killed_by_timeout : Bool
  pub agent_result : Option Payload

pub record Completion : Type 0 where
  pub semantics : String
  pub summary : Option String
  pub blocker_fingerprint : Option String
  pub termination_cause : Option String

-- `s` where it is a text that is not empty
abbrev pub truthy : Option String → Option String
truthy none = none
truthy (some s) = if s == "" then none else some s

-- `spawnResult?.killedByTimeout`
abbrev pub was_killed : Option SpawnResult → Bool
was_killed none = false
was_killed (some r) = r.killed_by_timeout

-- `exitCode !== 0 && exitCode !== null`
abbrev pub failed_code : Option ℕ → Option ℕ
failed_code none = none
failed_code (some c) = if nat_eq c 0 then none else some c

abbrev pub exit_code_of : Option SpawnResult → Option ℕ
exit_code_of none = none
exit_code_of (some r) = r.exit_code

killed : Completion
killed = record {
  semantics = "needs_retry";
  summary = none;
  blocker_fingerprint = some "killed_by_timeout";
  termination_cause = some "timeout";
}

no_payload : Completion
no_payload = record {
  semantics = "abandoned";
  summary = some "agent exited without delivering a result summary";
  blocker_fingerprint = none;
  termination_cause = some "no_result_payload";
}

mismatch : ℕ → Completion
mismatch code = record {
  semantics = "needs_retry";
  summary = some (concat ("Agent reported success but exited with code " ∷ show_nat code ∷ []));
  blocker_fingerprint = some (concat ("exitcode_mismatch:" ∷ show_nat code ∷ []));
  termination_cause = some "exitcode_mismatch";
}

unsupported : Completion
unsupported = record {
  semantics = "abandoned";
  summary = some "Agent result payload contains unsupported status";
  blocker_fingerprint = none;
  termination_cause = some "bad_result_payload";
}

abbrev map_text : (String → String) → Option String → Option String
map_text f none = none
map_text f (some s) = some (f s)

-- `gs?.last_reason ?? payload.reason`
abbrev summary_of : Payload → Option String
summary_of p = or_else p.last_reason p.reason

module _ (normalize : String → String) where
  fingerprint_of : Payload → Option String
  fingerprint_of p =
      if p.status == "success" then none else map_text normalize (truthy p.last_reason)

  of_status : Option SpawnResult → Payload → Completion
  unfolding mismatch unsupported fingerprint_of
  of_status r p =
      if p.status == "success"
      then elim (failed_code (exit_code_of r)) [
        | some c ↦ mismatch c
        | none ↦ record {
          semantics = "success";
          summary = summary_of p;
          blocker_fingerprint = none;
          termination_cause = none;
        }
      ]
      else if p.status == "needs_retry" || p.status == "abandoned"
      then record {
        semantics = p.status;
        summary = summary_of p;
        blocker_fingerprint = fingerprint_of p;
        termination_cause = none;
      }
      else if p.status == "timeout"
      then record {
        semantics = "needs_retry";
        summary = summary_of p;
        blocker_fingerprint = some (get_or (truthy (fingerprint_of p)) "timeout");
        termination_cause = some "timeout";
      }
      else unsupported

  of_payload : Option SpawnResult → Option Payload → Completion
  unfolding no_payload of_status
  of_payload r none = no_payload
  of_payload r (some p) = of_status r p

  unfoldable pub derive_completion : Option SpawnResult → Option Payload → Completion
  unfolding killed of_payload
  derive_completion r p = if was_killed r then killed else of_payload r p

-- `roles[label]` of the first label that names a role
find_role : (String → Bool) → List String → Option String
find_role is_role [] = none
find_role is_role (l ∷ ls) = if is_role l then some l else find_role is_role ls

-- `none` where the workflow defines no roles
unfoldable pub resolve_role_from_labels : List String → Option (String → Bool) → Option String
unfolding find_role
resolve_role_from_labels labels none = none
resolve_role_from_labels labels (some is_role) = find_role is_role labels
