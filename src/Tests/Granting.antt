-- ===== src/Tests/Granting.antt =====
-- A token at concrete times.
use nano_symphony.Common.{◌≤◌, ◌≡◌, refl, true, none, some, List, [], ◌∷◌, arith, one_of}
use nano_symphony.Json.{null}
use nano_symphony.Mcp.Auth.{
  Grant, no_tokens, entry_of, issue_token, verify_token, agent_tool_scope, sweep,
}
use nano_symphony.Mcp.Server.{Body, ToolCall, call_tool, answer_request, post}
use nano_symphony.Mcp.Uses.{Use, granted, swept, verified, apply, apply_all}
use nano_symphony.Mcp.Laws.{post-runs, verify_token-issue_token}

abbrev grant : Grant
grant = record { issue_uuid = "a"; attempt = 2; scope = none; ttl_ms = some 100 }

-- another token is granted, a time-out of an unknown one is noticed, and the sweep runs
abbrev meanwhile : List Use
meanwhile = granted "u" 20 grant ∷ verified "v" 30 ∷ swept 60 ∷ []

abbrev fetch : Body
fetch = record {
  method = "tools/call";
  id = null;
  name = some "symphony.fetch_issue";
  args = none;
  protocol_version = none;
}

abbrev fetched : ToolCall
fetched = record { name = "symphony.fetch_issue"; args = none; issue_uuid = "a"; attempt = 2 }

post-runs_example :
    (fetched.issue_uuid ≡ "a")
    × (fetched.attempt ≡ 2)
    × (one_of "symphony.fetch_issue" agent_tool_scope ≡ true)
    × (70 ≤ 110)
unfolding apply_all apply issue_token verify_token sweep post answer_request call_tool
post-runs_example =
    post-runs "1.0" "t" 10 70 grant no_tokens meanwhile fetch null fetched
      (refl, (refl, (refl, tt))) refl

verify_token-issue_token_example :
    (verify_token "t" 70 (apply_all meanwhile (issue_token "t" 10 grant no_tokens))).0
    ≡ some (entry_of grant 10 3600000)
verify_token-issue_token_example =
    verify_token-issue_token "t" 10 70 grant no_tokens meanwhile (refl, (refl, (refl, tt)))
      (omega arith)
