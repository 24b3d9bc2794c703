-- ===== src/Workspace.antt =====
-- Where an issue is worked on: resolveWorkspacePath of src/workspace/manager.ts. What it takes from the
-- runtime is a record: String.trim, path.isAbsolute, path.resolve with one and with two arguments, path.join,
-- the home directory, and the root of the configuration.
use nano_symphony.Common.{String, Bool, Option, none, some, ◌==◌, if◌then◌else◌, get_or}
use Prim.Native.String.{slice, len}
use text.Mathlib.Text.{starts_with}
use nano_symphony.Worker.Completion.{truthy}

pub record Paths : Type 0 where
  pub trim : String → String
  pub homedir : String
  pub join : String → String → String
  pub is_absolute : String → Bool
  pub resolve : String → String
  pub resolve_in : String → String → String
  pub workspace_root : String

module _ (paths : Paths) where
  -- `path?.trim()`, where that is not empty
  unfoldable pub trimmed : Option String → Option String
  trimmed none = none
  trimmed (some s) = truthy (some (paths.trim s))

  unfoldable pub expand_home : String → String
  expand_home p =
      if p == "~"
      then paths.homedir
      else if starts_with p "~/"
      then paths.join paths.homedir (slice p 2 (len p))
      else p

  unfoldable pub resolve_workspace_path : String → Option String → String
  resolve_workspace_path override_path root_override =
      let root = get_or (trimmed root_override) paths.workspace_root in
      let expanded = expand_home (paths.trim override_path) in
      if paths.is_absolute expanded then paths.resolve expanded else paths.resolve_in root expanded
