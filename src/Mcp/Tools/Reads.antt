-- ===== src/Mcp/Tools/Reads.antt =====
-- The tools of src/mcp/tools.ts that only read, with `buildPreviousInvocations` and
-- `collectRelatedIssueUuids`.
use nano_symphony.Common.{
  ℕ, suc, ◌-◌, String, not, Option, none, some, List, [], ◌∷◌, ◌++◌, map, ◌==◌, if◌then◌else◌,
  get_or, one_of, length, take, drop, keep, concat,
}
use nano_symphony.Json.{Json}
use nano_symphony.Tracker.Types.{Issue, Artifact, PlanRun, PlanRunState, Database}
use nano_symphony.Tracker.Issues.{get_issue, list_issues_by_plan_run}
use nano_symphony.Tracker.PlanRuns.{get_plan_run, list_plan_runs_by_caller}
use nano_symphony.Tracker.Artifacts.{get_artifact, list_artifacts_by_issues}
use nano_symphony.Mcp.Tools.Host.{Host}
use nano_symphony.Mcp.Tools.Schemas.{GetArtifact}

pub record Invocation : Type 0 where
  pub index : ℕ
  pub id : String
  pub state : PlanRunState
  pub script_excerpt : String
  pub result : Option String

pub record ArtifactRead : Type 0 where
  pub artifact_id : String
  pub kind : String
  pub label : Option String
  pub mime_type : String
  pub content : String

-- what a tool returns: an object of the given fields or a value of its own; or what it throws, which is
-- an Error with a message, or Zod's
pub data ToolResult : Type 0 where
  returned : List (String × Json) → ToolResult
  fetched : Issue → ℕ → List Invocation → ToolResult
  artifact : ArtifactRead → ToolResult
  related : List String → List Artifact → ToolResult
  raised : String → ToolResult
  rejected : ToolResult

abbrev pub issue_missing : String → ToolResult
issue_missing u = raised (concat ("Issue " ∷ u ∷ " not found" ∷ []))

abbrev invocation : Host → ℕ → PlanRun → Invocation
invocation host i r = record {
  index = i;
  id = r.id;
  state = r.state;
  script_excerpt = host.slice 16000 r.script;
  result = r.result;
}

abbrev numbered : Host → ℕ → List PlanRun → List Invocation
numbered host i [] = []
numbered host i (r ∷ rs) = invocation host i r ∷ numbered host (suc i) rs

unfoldable pub build_previous_invocations : Host → String → Database → List Invocation
build_previous_invocations host u d = numbered host 0 (list_plan_runs_by_caller u d)

unfoldable pub fetch_issue : Host → String → ℕ → Database → ToolResult
unfolding build_previous_invocations
fetch_issue host u attempt d = elim (get_issue u d) [
  | none ↦ issue_missing u
  | some i ↦ fetched i attempt (build_previous_invocations host u d)
]

-- a Set, in the order in which its elements came
unfoldable pub add_all : List String → List String → List String
add_all [] set = set
add_all (u ∷ us) set = add_all us (if one_of u set then set else set ++ u ∷ [])

abbrev uuids : List Issue → List String
uuids is = map (λ i. i.uuid) is

abbrev others : String → List String → List String
others u us = keep (λ v. not (v == u)) us

-- `run?.caller_issue_uuid`, where it is not empty
abbrev caller_of : Option PlanRun → List String
caller_of none = []
caller_of (some r) = elim r.caller_issue_uuid [
  | none ↦ []
  | some c ↦ if c == "" then [] else c ∷ []
]

-- the issues of the issue's own plan run, and the caller of it, without the issue
unfoldable pub siblings : String → Option String → Database → List String
siblings u none d = []
siblings u (some id) d =
    if id == ""
    then []
    else others u (uuids (list_issues_by_plan_run id d)) ++ others u (caller_of (get_plan_run id d))

abbrev issues_of_runs : List PlanRun → Database → List String
issues_of_runs [] d = []
issues_of_runs (r ∷ rs) d = uuids (list_issues_by_plan_run r.id d) ++ issues_of_runs rs d

abbrev blockers_of : String → Database → List String
blockers_of u d = map (λ b. b.blocker_uuid) (keep (λ b. b.issue_uuid == u) d.blockers)

unfoldable pub collect_related_issue_uuids : String → Issue → Database → List String
unfolding add_all siblings
collect_related_issue_uuids u i d =
    add_all
      (siblings u i.plan_run_id d
        ++ blockers_of u d
        ++ issues_of_runs (list_plan_runs_by_caller u d) d)
      []

-- `({ storage_path, content, ...rest }) => rest`
abbrev without_content : Artifact → Artifact
without_content a = record a { storage_path = none; content = none }

unfoldable pub list_related_artifacts : String → Database → ToolResult
unfolding collect_related_issue_uuids
list_related_artifacts u d = elim (get_issue u d) [
  | none ↦ issue_missing u
  | some i ↦
      let us = collect_related_issue_uuids u i d in
      related us (map without_content (list_artifacts_by_issues us d))
]

abbrev lines_of : List String → String
lines_of [] = ""
lines_of (l ∷ []) = l
lines_of (l ∷ ls) = concat (l ∷ "\n" ∷ lines_of ls ∷ [])

-- `xs.slice(-n)`, for n above 0
abbrev last_of {ℓ} : {A : Type ℓ} → ℕ → List A → List A
last_of n xs = drop (length xs - n) xs

abbrev with_lines : Option ℕ → (ℕ → String) → String → String
with_lines none f s = s
with_lines (some n) f s = f n

abbrev with_pattern : Option String → (String → String) → String → String
with_pattern none f s = s
with_pattern (some p) f s = if p == "" then s else f p

unfoldable pub read_content : Host → GetArtifact → String → String
read_content host p s =
    let mode = get_or p.mode "full" in
    if mode == "head"
    then with_lines p.lines (λ n. lines_of (take n (host.split_lines s))) s
    else if mode == "tail"
    then with_lines p.lines (λ n. lines_of (last_of n (host.split_lines s))) s
    else if mode == "search"
    then with_pattern p.pattern (λ t. lines_of (keep (λ l. host.includes l t) (host.split_lines s)))
        s
    else with_lines p.bytes (λ n. host.slice n s) s

unfoldable pub read_artifact_as : Host → GetArtifact → Database → ToolResult
unfolding read_content
read_artifact_as host p d = elim (get_artifact p.artifact_id d) [
  | none ↦ raised (concat ("Artifact " ∷ p.artifact_id ∷ " not found" ∷ []))
  | some a ↦ artifact (record {
    artifact_id = a.id;
    kind = a.kind;
    label = a.label;
    mime_type = a.mime_type;
    content = read_content host p (get_or a.content "");
  })
]

-- the template of the workflow, or one section of it
unfoldable pub workflow_section : Host → String → Option String → String
workflow_section host template none = template
workflow_section host template (some s) =
    if s == "" then template else get_or (host.section_of s template) ""
