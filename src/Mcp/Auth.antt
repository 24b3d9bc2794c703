-- ===== src/Mcp/Auth.antt =====
-- The tokens of agents and the version of the protocol: src/mcp/auth.ts and src/mcp/protocol.ts. The map of
-- tokens is a function; crypto.randomUUID and the clock are arguments.
use nano_symphony.Common.{
  ℕ, ◌+◌, String, Option, none, some, List, [], ◌∷◌, ◌==◌, ltb, if◌then◌else◌, get_or, is_text,
}

pub record TokenEntry : Type 0 where
  pub issue_uuid : String
  pub attempt : ℕ
  pub expires_at : ℕ
  pub scope : List String

-- `tokenStore` and `tokenTtl`
pub record TokenStore : Type 0 where
  pub entries : String → Option TokenEntry
  pub token_ttl : ℕ

abbrev pub no_tokens : TokenStore
no_tokens = record { entries = λ _. none; token_ttl = 3600000 }

unfoldable pub set_token_ttl : ℕ → TokenStore → TokenStore
set_token_ttl ms s = record s { token_ttl = ms }

abbrev pub agent_tool_scope : List String
agent_tool_scope =
    "symphony.session_completed" ∷ "symphony.report_event" ∷ "symphony.report_goal_state"
    ∷ "symphony.request_workflow_section" ∷ "symphony.suggest_state_transition"
    ∷ "symphony.fetch_issue" ∷ "symphony.emit_result" ∷ "symphony.spawn_plan_run"
    ∷ "symphony.spawn_plan_run_and_handoff" ∷ "symphony.get_artifact"
    ∷ "symphony.update_issue_scratchpad" ∷ []

-- `tokenStore.set` and `tokenStore.delete`
abbrev pub put_entry : String → Option TokenEntry → TokenStore → TokenStore
put_entry token e s = record s { entries = λ t. if token == t then e else s.entries t }

-- what `issueToken` needs for a new token
pub record Grant : Type 0 where
  pub issue_uuid : String
  pub attempt : ℕ
  pub scope : Option (List String)
  pub ttl_ms : Option ℕ

abbrev pub entry_of : Grant → ℕ → ℕ → TokenEntry
entry_of g now ttl = record {
  issue_uuid = g.issue_uuid;
  attempt = g.attempt;
  expires_at = now + get_or g.ttl_ms ttl;
  scope = get_or g.scope agent_tool_scope;
}

unfoldable pub issue_token : String → ℕ → Grant → TokenStore → TokenStore
issue_token token now g s = put_entry token (some (entry_of g now s.token_ttl)) s

abbrev verify_entry : String → ℕ → Option TokenEntry → TokenStore → Option TokenEntry × TokenStore
verify_entry token now none s = (none, s)
verify_entry token now (some e) s =
    if ltb e.expires_at now then (none, put_entry token none s) else (some e, s)

unfoldable pub verify_token : String → ℕ → TokenStore → Option TokenEntry × TokenStore
verify_token token now s = verify_entry token now (s.entries token) s

unfoldable pub revoke_token : String → TokenStore → TokenStore
revoke_token token s = put_entry token none s

abbrev pub unless_expired : ℕ → Option TokenEntry → Option TokenEntry
unless_expired now none = none
unless_expired now (some e) = if ltb e.expires_at now then none else some e

-- the sweep that runs every minute
unfoldable pub sweep : ℕ → TokenStore → TokenStore
sweep now s = record s { entries = λ t. unless_expired now (s.entries t) }

abbrev pub supported_protocol_versions : List String
supported_protocol_versions = "2024-11-05" ∷ "2025-03-26" ∷ "2025-06-18" ∷ "2025-11-25" ∷ []

abbrev pub preferred_protocol_version : String
preferred_protocol_version = "2025-11-25"

abbrev first_version : Option String → List String → String
first_version requested [] = preferred_protocol_version
first_version requested (v ∷ vs) = if is_text requested v then v else first_version requested vs

unfoldable pub negotiate_protocol_version : Option String → String
negotiate_protocol_version requested = first_version requested supported_protocol_versions
