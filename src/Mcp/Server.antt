-- ===== src/Mcp/Server.antt =====
-- The router of src/mcp/server.ts. A request is its header and its body; an answer says which tool is run, and
-- for which issue. The definitions of the tools, which tools/list sends, stand outside.
use nano_symphony.Common.{
  ℕ, ◌+◌, String, Option, none, some, [], ◌∷◌, ◌==◌, if◌then◌else◌, one_of, concat,
}
use text.Mathlib.Text.{starts_with}
use nano_symphony.Json.{Json, str, object, num}
use nano_symphony.Common.Int.{negsuc}
use nano_symphony.Mcp.Auth.{TokenEntry, TokenStore, verify_token, negotiate_protocol_version}

pub record Body : Type 0 where
  pub method : String
  pub id : Json
  pub name : Option String
  pub args : Option Json
  pub protocol_version : Option String

pub record ToolCall : Type 0 where
  pub name : String
  pub args : Option Json
  pub issue_uuid : String
  pub attempt : ℕ

-- an HTTP error, the bare 202, a JSON-RPC result or error, the list of tools, or the run of a tool
pub data Answer : Type 0 where
  refused : ℕ → String → Answer
  accepted : Answer
  result error : Json → Json → Answer
  tool_list : Json → Answer
  runs : Json → ToolCall → Answer

-- the error codes, below -32599
abbrev pub rpc_error : ℕ → String → Json
rpc_error code message = object (
    ("code", num (record { floor = negsuc (32599 + code); rest = 0 }))
    ∷ ("message", str message)
    ∷ [])

-- `tools/call`
unfoldable pub call_tool : TokenEntry → Body → Answer
call_tool auth body = elim body.name [
  | none ↦ Answer.error body.id (rpc_error 0 "Missing tool name")
  | some name ↦
      if name == ""
      then Answer.error body.id (rpc_error 0 "Missing tool name")
      else if one_of name auth.scope
      then Answer.runs body.id (record {
        name = name;
        args = body.args;
        issue_uuid = auth.issue_uuid;
        attempt = auth.attempt;
      })
      else Answer.error body.id
          (rpc_error 3 (concat ("Tool '" ∷ name ∷ "' is not authorized for this token" ∷ [])))
]

unfoldable pub initialize : String → Body → Json
initialize version body = object (
    ("protocolVersion", str (negotiate_protocol_version body.protocol_version))
    ∷ ("capabilities", object (("tools", object []) ∷ []))
    ∷ ("serverInfo", object (("name", str "nano-symphony") ∷ ("version", str version) ∷ []))
    ∷ [])

unfoldable pub answer_request : String → TokenEntry → Body → Answer
unfolding call_tool initialize
answer_request version auth body =
    if starts_with body.method "notifications/"
    then Answer.accepted
    else if body.method == "initialize"
    then Answer.result body.id (initialize version body)
    else if body.method == "tools/list"
    then Answer.tool_list body.id
    else if body.method == "tools/call"
    then call_tool auth body
    else Answer.error body.id (rpc_error 1 "Method not found")

abbrev pub answer_as : String → Body → Option TokenEntry → Answer
answer_as version body none = Answer.refused 403 "Invalid token"
answer_as version body (some auth) = answer_request version auth body

abbrev pub with_token : String → ℕ → String → Body → TokenStore → Answer × TokenStore
with_token version now token body s =
    let (auth, s') = verify_token token now s in (answer_as version body auth, s')

-- POST / at a time, with the header of the token
unfoldable pub post : String → ℕ → Option String → Body → TokenStore → Answer × TokenStore
unfolding answer_request
post version now none body s = (Answer.refused 401 "Missing token", s)
post version now (some token) body s =
    if token == ""
    then (Answer.refused 401 "Missing token", s)
    else with_token version now token body s
