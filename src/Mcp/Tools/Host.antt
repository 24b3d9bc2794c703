-- ===== src/Mcp/Tools/Host.antt =====
-- What the tools of src/mcp/tools.ts take from outside: the clock and the ids, the texts of JavaScript and
-- its regular expressions, Zod's test for a URL and what its `passthrough` leaves, and Node's path.extname.
use nano_symphony.Common.{ℕ, String, Bool, Option, List}
use nano_symphony.Json.{Json}
use nano_symphony.Plan.Schema.{Texts}
use nano_symphony.Worker.Env.{Env}

pub data Parsed : Type 0 where
  parsed : Json → Parsed
  unparsable : String → Parsed

pub record Host : Type 0 where
  pub env : Env
  pub texts : Texts
  -- `nanoid()` of the n-th artifact, and `nanoid(6)`
  pub artifact_id : ℕ → String
  pub short_id : String
  pub byte_length : String → ℕ
  -- `s.slice(0, n)`, `s.split("\n")` and `s.includes(t)`
  pub slice : ℕ → String → String
  pub split_lines : String → List String
  pub includes : String → String → Bool
  -- the trimmed section of a template, where the expression finds it
  pub section_of : String → String → Option String
  -- JSON.parse, or the message of its error
  pub parse_json : String → Parsed
  pub is_url : String → Bool
  pub passthrough : Json → Json
  -- `path.extname(p).toLowerCase()`
  pub extension : String → String
