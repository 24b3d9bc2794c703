-- ===== src/Mcp/Serve.antt =====
-- A request to the router of src/mcp/server.ts with the tool that it runs: the answer of the router, the tokens,
-- and the database that the tool leaves.
use nano_symphony.Common.{ℕ, String, ◌≡◌, refl, sym, ◌∙◌, ◌≢◌, true, Option, some, List, All}
use nano_symphony.Json.{Json}
use nano_symphony.Tracker.Types.{Database}
use nano_symphony.Tracker.Isolation.{Same}
use nano_symphony.Mcp.Auth.{TokenStore, Grant, issue_token}
use nano_symphony.Mcp.Server.{Body, Answer, ToolCall, post, rpc_error}
use nano_symphony.Mcp.Uses.{Use, spares, apply_all}
use nano_symphony.Mcp.Laws.{post-runs}
use nano_symphony.Mcp.Tools.Host.{Host}
use nano_symphony.Mcp.Tools.Reads.{ToolResult, raised, rejected}
use nano_symphony.Mcp.Tools.Handle.{handle_tool}
use nano_symphony.Mcp.Tools.Isolation.{handle_tool-Same}

-- what the client is sent: an answer of the router, the result of a tool, or the error of one
pub data Response : Type 0 where
  routed : Answer → Response
  content : Json → ToolResult → Response
  failure : Json → Json → Response

-- the message of the error that Zod throws stands outside
unfoldable pub respond : String → Json → ToolResult → Response
respond zod_message id (raised message) = failure id (rpc_error 3 message)
respond zod_message id rejected = failure id (rpc_error 3 zod_message)
respond zod_message id result = content id result

unfoldable pub finish : Host → String → String → Database → Answer → Database × Response
unfolding respond
finish host template zod_message d (Answer.runs id call) =
    let (d', result) =
      handle_tool host template call.name call.args call.issue_uuid call.attempt d in
    (d', respond zod_message id result)
finish host template zod_message d answer = (d, routed answer)

unfoldable pub serve :
    Host
    → String
    → String
    → String
    → Option String
    → Body
    → TokenStore
    → Database
    → Database × Response × TokenStore
unfolding finish
serve host version template zod_message token body s d =
    let (answer, s') = post version host.env.now token body s in
    let (d', response) = finish host template zod_message d answer in (d', response, s')

-- the answer runs no tool, or it runs one for the issue
abbrev RunsFor : String → Answer → Type 0
RunsFor u (Answer.runs id call) = call.issue_uuid ≡ u
RunsFor u answer = Unit

finish-Same :
    (host : Host) (template zod_message u v : String) (d : Database) (answer : Answer)
    → u ≢ v
    → RunsFor u answer
    → Same v d (finish host template zod_message d answer).0
unfolding finish
finish-Same host template zod_message u v d (Answer.runs id call) apart own =
    handle_tool-Same host call.issue_uuid v (λ e. apart (sym own ∙ e)) template call.name call.args
      call.attempt d
finish-Same host template zod_message u v d (Answer.refused code message) apart own = refl
finish-Same host template zod_message u v d Answer.accepted apart own = refl
finish-Same host template zod_message u v d (Answer.result id r) apart own = refl
finish-Same host template zod_message u v d (Answer.error id r) apart own = refl
finish-Same host template zod_message u v d (Answer.tool_list id) apart own = refl

runs_for :
    (u : String) (answer : Answer)
    → ((id : Json) (call : ToolCall) → answer ≡ Answer.runs id call → call.issue_uuid ≡ u)
    → RunsFor u answer
runs_for u (Answer.runs id call) h = h id call refl
runs_for u (Answer.refused code message) h = tt
runs_for u Answer.accepted h = tt
runs_for u (Answer.result id r) h = tt
runs_for u (Answer.error id r) h = tt
runs_for u (Answer.tool_list id) h = tt

-- A token is granted for an attempt at an issue. Whatever is granted, verified, revoked and swept
-- afterwards, as long as the token is not granted anew: a request with it, of any method, tool and
-- parameters, changes nothing that the tables hold of another issue:
-- its row, run, labels, events, results, artifacts, comments, calls and metrics, the plan runs that it called and
-- the issues that block it. The states that the table of blockers notes of these may follow the caller's.
pub serve-Same :
    (host : Host) (version template zod_message token : String) (now : ℕ) (g : Grant)
    (s : TokenStore) (us : List Use) (body : Body) (v : String) (d : Database)
    → All (λ u. spares token u ≡ true) us
    → g.issue_uuid ≢ v
    → Same v d
        (serve host version template zod_message
          (some token)
          body
          (apply_all us (issue_token token now g s))
          d).0
unfolding serve
serve-Same host version template zod_message token now g s us body v d others apart =
    let tokens = apply_all us (issue_token token now g s) in
    finish-Same host template zod_message g.issue_uuid v d _ apart (
      runs_for g.issue_uuid _ (λ id call runs.
        (post-runs version token now host.env.now g s us body id call others runs).0))
