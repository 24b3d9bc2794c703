-- ===== src/Tracker/Artifacts.antt =====
-- Artifacts of issues: src/db/tracker-artifacts.ts. The id that nanoid makes, the time and the number of bytes
-- of a text in UTF-8 are arguments, and the files that rows name are not part of it.
use nano_symphony.Common.{
  ℕ, String, Bool, ◌&&◌, Option, none, some, List, [], ◌∷◌, ◌++◌, ◌==◌, nat_eq, if◌then◌else◌,
  get_or, is_text, one_of, take, keep, any, find_row, delete_rows, sort_by,
}
use nano_symphony.Json.{Json}
use nano_symphony.Tracker.Types.{Artifact, ArtifactSource, Database}

-- the argument of `insertArtifact`
pub record ArtifactInput : Type 0 where
  pub issue_uuid : String
  pub attempt : ℕ
  pub source : ArtifactSource
  pub kind : String
  pub label : Option String
  pub path : Option String
  pub content : Option String
  pub metadata : Option Json
  pub storage_path : Option String
  pub content_size : Option ℕ
  pub mime_type : Option String

-- `input.content ? Buffer.byteLength(input.content, "utf-8") : 0`
abbrev measured : (String → ℕ) → Option String → ℕ
measured byte_length none = 0
measured byte_length (some s) = if s == "" then 0 else byte_length s

unfoldable pub artifact_of : (String → ℕ) → String → ℕ → ArtifactInput → Artifact
artifact_of byte_length id now i = record {
  id = id;
  issue_uuid = i.issue_uuid;
  attempt = i.attempt;
  source = i.source;
  kind = i.kind;
  label = i.label;
  path = i.path;
  content = i.content;
  metadata_json = i.metadata;
  storage_path = i.storage_path;
  content_size = get_or i.content_size (measured byte_length i.content);
  mime_type = get_or i.mime_type "application/octet-stream";
  ts = now;
}

unfoldable pub insert_artifact : (String → ℕ) → String → ℕ → ArtifactInput → Database → Database
unfolding artifact_of
insert_artifact byte_length id now i d = record d {
  artifacts = d.artifacts ++ artifact_of byte_length id now i ∷ [];
}

abbrev pub is_artifact_of : String → Artifact → Bool
is_artifact_of issue_uuid a = a.issue_uuid == issue_uuid

-- ORDER BY attempt ASC, ts ASC: by the time first, and then, by a stable sort, by the attempt
unfoldable pub list_artifacts : String → Option ℕ → Database → List Artifact
list_artifacts issue_uuid none d =
    sort_by (λ a. a.attempt) (sort_by (λ a. a.ts) (keep (is_artifact_of issue_uuid) d.artifacts))
list_artifacts issue_uuid (some attempt) d =
    sort_by (λ a. a.ts)
      (keep (λ a. is_artifact_of issue_uuid a && nat_eq a.attempt attempt) d.artifacts)

abbrev artifact_key : Artifact → String
artifact_key a = a.id

unfoldable pub get_artifact : String → Database → Option Artifact
get_artifact id d = find_row artifact_key id d.artifacts

abbrev pub artifact_issue : Artifact → String
artifact_issue a = a.issue_uuid

unfoldable pub delete_artifacts_by_issue : String → Database → Database
delete_artifacts_by_issue issue_uuid d = record d {
  artifacts = delete_rows artifact_issue issue_uuid d.artifacts;
}

-- ORDER BY ts DESC, and rows of one time in the reverse order of the table
abbrev latest_first : List Artifact → List Artifact
latest_first as' = mathlib.Core.List.reverse (sort_by (λ a. a.ts) as')

unfoldable pub list_recent_artifacts : ℕ → Database → List Artifact
list_recent_artifacts limit d = take limit (latest_first d.artifacts)

unfoldable pub artifact_exists_by_path : String → ℕ → String → Database → Bool
artifact_exists_by_path issue_uuid attempt file_path d =
    any (λ a. is_artifact_of issue_uuid a && (nat_eq a.attempt attempt && is_text a.path file_path))
      d.artifacts

unfoldable pub list_artifacts_by_issues : List String → Database → List Artifact
list_artifacts_by_issues issue_uuids d =
    latest_first (keep (λ a. one_of a.issue_uuid issue_uuids) d.artifacts)
