-- ===== src/Mcp/Tools/Artifacts.antt =====
-- Artifacts that an agent reports: `ArtifactSchema` and the three helpers of src/mcp/tools.ts, and
-- `guessMimeType` of src/orchestrator/artifact-collector.ts, whose lower-case file extension stands outside.
use nano_symphony.Common.{
  ℕ, String, Bool, Option, none, some, List, [], ◌∷◌, ◌++◌, ◌==◌, if◌then◌else◌, get_or, or_else,
  one_of, concat,
}
use nano_symphony.Json.{Number, Json, str, num, object}
use nano_symphony.Mcp.Tools.Fields.{
  Reader, ◌>>=◌, ◌>>◌, guard, an_object, a_text, a_number, at_most, field_of, optional,
}

pub data ArtifactItem : Type 0 where
  file_diff : String → Option String → Option Number → Option Number → ArtifactItem
  file_added : String → Option Number → Option String → ArtifactItem
  file_removed : String → ArtifactItem
  file_renamed : String → String → ArtifactItem
  screenshot : String → Option String → ArtifactItem
  log_excerpt : String → String → ArtifactItem
  url : String → String → ArtifactItem
  command_output : String → String → Option Number → String → ArtifactItem
  note : String → String → ArtifactItem

abbrev pub kind_of : ArtifactItem → String
kind_of (file_diff path diff additions deletions) = "file_diff"
kind_of (file_added path bytes preview) = "file_added"
kind_of (file_removed path) = "file_removed"
kind_of (file_renamed from to) = "file_renamed"
kind_of (screenshot path caption) = "screenshot"
kind_of (log_excerpt label content) = "log_excerpt"
kind_of (url label href) = "url"
kind_of (command_output label cmd exit_code output) = "command_output"
kind_of (note label markdown) = "note"

abbrev filled : String → String → String
filled s other = if s == "" then other else s

unfoldable pub build_artifact_label : ArtifactItem → String
build_artifact_label (file_diff path diff additions deletions) = filled path "file_diff"
build_artifact_label (file_added path bytes preview) = filled path "file_added"
build_artifact_label (file_removed path) = filled path "file_removed"
build_artifact_label (file_renamed from to) = concat (from ∷ " → " ∷ to ∷ [])
build_artifact_label (screenshot path caption) = filled path "screenshot"
build_artifact_label (log_excerpt label content) = filled label "log_excerpt"
build_artifact_label (url label href) = filled label href
build_artifact_label (command_output label cmd exit_code output) = filled label cmd
build_artifact_label (note label markdown) = filled label "note"

abbrev unless_empty : Option String → Option String
unless_empty none = none
unless_empty (some s) = if s == "" then none else some s

unfoldable pub extract_artifact_content : ArtifactItem → Option String
extract_artifact_content (command_output label cmd exit_code output) = some output
extract_artifact_content (log_excerpt label content) = some content
extract_artifact_content (note label markdown) = some markdown
extract_artifact_content (file_diff path diff additions deletions) = unless_empty diff
extract_artifact_content (file_added path bytes preview) = unless_empty preview
extract_artifact_content _ = none

unfoldable pub get_artifact_path : ArtifactItem → Option String
get_artifact_path (file_diff path diff additions deletions) = unless_empty (some path)
get_artifact_path (file_added path bytes preview) = unless_empty (some path)
get_artifact_path (file_removed path) = unless_empty (some path)
get_artifact_path (screenshot path caption) = unless_empty (some path)
get_artifact_path (file_renamed from to) = some to
get_artifact_path _ = none

-- a field that is there
abbrev given {ℓ} : {A : Type ℓ} → (A → Json) → String → Option A → List (String × Json)
given print k none = []
given print k (some x) = (k, print x) ∷ []

-- the item as the schema leaves it
abbrev fields_of_item : ArtifactItem → List (String × Json)
fields_of_item (file_diff path diff additions deletions) =
    ("path", str path) ∷ given str "diff" diff
    ++ given num "additions" additions
    ++ given num "deletions" deletions
fields_of_item (file_added path bytes preview) =
    ("path", str path) ∷ given num "bytes" bytes ++ given str "preview" preview
fields_of_item (file_removed path) = ("path", str path) ∷ []
fields_of_item (file_renamed from to) = ("from", str from) ∷ ("to", str to) ∷ []
fields_of_item (screenshot path caption) = ("path", str path) ∷ given str "caption" caption
fields_of_item (log_excerpt label content) = ("label", str label) ∷ ("content", str content) ∷ []
fields_of_item (url label href) = ("label", str label) ∷ ("href", str href) ∷ []
fields_of_item (command_output label cmd exit_code output) =
    ("label", str label) ∷ ("cmd", str cmd) ∷ given num "exit_code" exit_code
    ++ ("output", str output) ∷ []
fields_of_item (note label markdown) = ("label", str label) ∷ ("markdown", str markdown) ∷ []

unfoldable pub artifact_json : ArtifactItem → Json
artifact_json a = object (("kind", str (kind_of a)) ∷ fields_of_item a)

-- the reader of each kind
abbrev read_kind : (String → ℕ) → (String → Bool) → String → Reader ArtifactItem
read_kind text_length is_url kind v =
    if kind == "file_diff"
    then (do
      path ← field_of a_text "path" v
      diff ← optional (at_most text_length 64000) "diff" v
      additions ← optional a_number "additions" v
      deletions ← optional a_number "deletions" v
      some (file_diff path diff additions deletions))
    else if kind == "file_added"
    then (do
      path ← field_of a_text "path" v
      bytes ← optional a_number "bytes" v
      preview ← optional (at_most text_length 8000) "preview" v
      some (file_added path bytes preview))
    else if kind == "file_removed"
    then (do path ← field_of a_text "path" v; some (file_removed path))
    else if kind == "file_renamed"
    then (do
      from ← field_of a_text "from" v
      to ← field_of a_text "to" v
      some (file_renamed from to))
    else if kind == "screenshot"
    then (do
      path ← field_of a_text "path" v
      caption ← optional a_text "caption" v
      some (screenshot path caption))
    else if kind == "log_excerpt"
    then (do
      label ← field_of a_text "label" v
      content ← field_of (at_most text_length 32000) "content" v
      some (log_excerpt label content))
    else if kind == "url"
    then (do
      label ← field_of a_text "label" v
      href ← field_of a_text "href" v
      guard (is_url href)
      some (url label href))
    else if kind == "command_output"
    then (do
      label ← field_of a_text "label" v
      cmd ← field_of a_text "cmd" v
      exit_code ← optional a_number "exit_code" v
      output ← field_of (at_most text_length 32000) "output" v
      some (command_output label cmd exit_code output))
    else if kind == "note"
    then (do
      label ← field_of a_text "label" v
      markdown ← field_of (at_most text_length 8000) "markdown" v
      some (note label markdown))
    else none

unfoldable pub read_artifact : (String → ℕ) → (String → Bool) → Reader ArtifactItem
read_artifact text_length is_url v = do
  an_object v
  kind ← field_of a_text "kind" v
  read_kind text_length is_url kind v

abbrev fixed_type : String → Option String
fixed_type kind =
    if kind == "file_diff"
    then some "text/x-patch"
    else if kind == "screenshot"
    then some "image/png"
    else if one_of kind ("log_excerpt" ∷ "command_output" ∷ [])
    then some "text/plain"
    else none

abbrev extension_types : List (String × String)
extension_types =
    (".html", "text/html")
    ∷ (".md", "text/markdown")
    ∷ (".json", "application/json")
    ∷ (".ts", "text/typescript")
    ∷ (".tsx", "text/typescript")
    ∷ (".js", "text/javascript")
    ∷ (".jsx", "text/javascript")
    ∷ (".css", "text/css")
    ∷ (".yaml", "text/yaml")
    ∷ (".yml", "text/yaml")
    ∷ (".png", "image/png")
    ∷ (".jpg", "image/jpeg")
    ∷ (".jpeg", "image/jpeg")
    ∷ (".gif", "image/gif")
    ∷ (".svg", "image/svg+xml")
    ∷ (".pdf", "application/pdf")
    ∷ (".txt", "text/plain")
    ∷ (".sh", "text/x-shellscript")
    ∷ (".py", "text/x-python")
    ∷ (".go", "text/x-go")
    ∷ (".rs", "text/x-rust")
    ∷ []

abbrev type_at : String → List (String × String) → Option String
type_at ext [] = none
type_at ext ((k, t) ∷ ts) = if k == ext then some t else type_at ext ts

abbrev type_by_path : (String → String) → Option String → Option String
type_by_path extension none = none
type_by_path extension (some path) =
    if path == "" then none else type_at (extension path) extension_types

unfoldable pub guess_mime_type : (String → String) → String → Option String → String
guess_mime_type extension kind path =
    get_or (or_else (fixed_type kind) (type_by_path extension path)) "application/octet-stream"
