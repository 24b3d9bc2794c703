-- ===== src/Orchestrator/Conflict/Laws.antt =====
-- When a workspace is free, for findWorkspaceConflict of src/orchestrator/index.ts.
use nano_symphony.Common.{
  String, ◌≡◌, refl, ap, ◌≢◌, ◌↔◌, inl, inr, Bool, true, false, Option, none, some, List, [], ◌∷◌,
  arith, ◌==◌, eq_iff, Bool-cases, get_or, is_text, All,
}
use nano_symphony.Tracker.Types.{Database}
use nano_symphony.Tracker.Runs.{ActiveWorkspacePath, get_active_workspace_paths}
use nano_symphony.Workspace.{Paths, resolve_workspace_path}
use nano_symphony.Orchestrator.Conflict.{
  active_path, is_conflict, first_conflict, find_workspace_conflict,
}

is_text_iff : (o : Option String) (s : String) → (is_text o s ≡ true) ↔ (o ≡ some s)
is_text_iff none s = (λ h. cc, λ h. cc)
is_text_iff (some t) s = (λ h. ap some ((eq_iff t s).0 h), λ h. (eq_iff t s).1 (option_some h))
  where
    option_some : {a b : String} → some a ≡ some b → a ≡ b
    option_some e = ap (λ o. get_or o "") e

module _ (paths : Paths) (root : Option String) where
  -- No other issue's active run is in the directory.
  abbrev pub IsFreeOfOthers : String → String → List ActiveWorkspacePath → Type 0
  IsFreeOfOthers u target rows =
      All (λ a. a.issue_uuid ≢ u → active_path paths root a ≢ some target) rows

  no_conflict :
      (u target : String) (a : ActiveWorkspacePath)
      → (is_conflict paths root u target a ≡ false)
        ↔ (a.issue_uuid ≢ u → active_path paths root a ≢ some target)
  no_conflict u target a = (
    λ h ne held.
        ground
          (arith, eq_iff a.issue_uuid u, (is_text_iff (active_path paths root a) target).1 held),
    λ free. elim (Bool-cases (a.issue_uuid == u)) [
      | inl e ↦ rw e refl
      | inr e ↦ rw e (
          not_held (is_text_iff (active_path paths root a) target)
            (free (λ f. ne_of e ((eq_iff _ _).1 f))))
    ],
  )
    where
      ne_of : {b : Bool} → b ≡ false → b ≡ true → ⊥
      ne_of e f = ground arith

      not_held : {b : Bool} {P : Type 0} → (b ≡ true) ↔ P → ¬ P → b ≡ false
      not_held {b = true} (to, from) np = absurd (np (to refl))
      not_held {b = false} (to, from) np = refl

  first_conflict-none :
      (u target : String) (rows : List ActiveWorkspacePath)
      → (first_conflict paths root u target rows ≡ none) ↔ IsFreeOfOthers u target rows
  unfolding first_conflict
  first_conflict-none u target [] = (λ h. tt, λ h. refl)
  first_conflict-none u target (a ∷ rest) =
      let (to, from) = first_conflict-none u target rest in
      let (out, back) = no_conflict u target a in
      (
        λ h. (out (ground arith), to (ground arith)),
        λ (h, hs). rw (first_conflict, back h) (from hs),
      )

  -- No conflict is found exactly where no active run of another issue is in the directory that the override
  -- resolves to.
  pub find_workspace_conflict-none_iff :
      (u override : String) (d : Database)
      → (find_workspace_conflict paths root u override d ≡ none)
        ↔ IsFreeOfOthers u
            (resolve_workspace_path paths override root)
            (get_active_workspace_paths d)
  unfolding find_workspace_conflict
  find_workspace_conflict-none_iff u override d =
      first_conflict-none u (resolve_workspace_path paths override root)
        (get_active_workspace_paths d)
