-- ===== src/Orchestrator/Conflict/Unused.antt =====
-- Which runs hold a workspace, in words of the tables, for findWorkspaceConflict of src/orchestrator/index.ts.
use nano_symphony.Common.{
  String, ◌≡◌, refl, sym, ap, ◌∙◌, ◌≢◌, ◌↔◌, ◌⊎◌, inl, inr, false, Option, none, some, List, [],
  ◌∷◌, arith, ◌==◌, eq_iff, Bool-cases, Option-cases, get_or, subst, All, find_row,
}
use nano_symphony.Tracker.Types.{Issue, Run, Database, issue_key}
use nano_symphony.Tracker.Runs.{
  ActiveWorkspacePath, null_if_empty, null_if_empty?, active_paths, get_active_workspace_paths,
}
use nano_symphony.Workspace.{Paths, trimmed, resolve_workspace_path}
use nano_symphony.Orchestrator.Conflict.{active_path, resolved_if_set, find_workspace_conflict}
use nano_symphony.Orchestrator.Conflict.Laws.{IsFreeOfOthers, find_workspace_conflict-none_iff}

ne_of : (s t : String) → (s == t) ≡ false → s ≢ t
ne_of s t e same = ground (arith, e, eq_iff s t, same)

not_equal : (s t : String) → s ≢ t → (s == t) ≡ false
not_equal s t ne = ground (arith, ne, eq_iff s t)

some-same : {a b : String} → some a ≡ some b → a ≡ b
some-same e = ap (λ o. get_or o "") e

-- the entry of an active run and its issue
abbrev entry : Run → Issue → ActiveWorkspacePath
entry r i = record {
  issue_uuid = r.issue_uuid;
  run_workspace_path = null_if_empty r.workspace_path;
  issue_workspace_path = null_if_empty? i.workspace_path;
}

module _ (paths : Paths) (root : Option String) where
  -- The run is worked on in a directory: its own, or, where none is noted of it, the one of its issue, where
  -- that is not blank.
  abbrev pub Uses : Run → Issue → String → Type 0
  Uses r i target =
      ((r.workspace_path ≢ "") × (r.workspace_path ≡ target))
      ⊎ ((r.workspace_path ≡ "")
          × ((p : String) × (i.workspace_path ≡ some p)
              × (p ≢ "")
              × (paths.trim p ≢ "")
              × (resolve_workspace_path paths p root ≡ target)))

  -- The run is of no issue in the table, released, of the issue itself, or in another directory.
  abbrev pub LeavesFree : String → String → List Issue → Run → Type 0
  LeavesFree u target issues r =
      (i : Issue)
      → find_row issue_key r.issue_uuid issues ≡ some i
      → r.last_state ≢ "released"
      → r.issue_uuid ≢ u
      → ¬ Uses r i target

  -- The directory of an issue, where it is not blank.
  abbrev OfIssue : Option String → String → Type 0
  OfIssue o target =
      (p : String) × (o ≡ some p)
      × (p ≢ "")
      × (paths.trim p ≢ "")
      × (resolve_workspace_path paths p root ≡ target)

  issue_directory :
      (o : Option String) (target : String)
      → (resolved_if_set paths root (null_if_empty? o) (trimmed paths (null_if_empty? o))
          ≡ some target)
        ↔ OfIssue o target
  unfolding resolved_if_set trimmed
  issue_directory none target = (λ h. cc, λ (p, e, _, _, _). cc)
  issue_directory (some p) target = elim (Bool-cases (p == "")) [
    | inl e ↦ (
      λ h. let bad = rw e at h in cc,
      λ (q, same, ne, _, _). absurd (ne (sym (some-same same) ∙ (eq_iff p "").0 e)),
    )
    | inr e ↦ elim (Bool-cases (paths.trim p == "")) [
      | inl t ↦ (
        λ h. let bad = rw (e, t) at h in cc,
        λ (q, same, _, blank, _).
            absurd (blank (ap paths.trim (sym (some-same same)) ∙ (eq_iff (paths.trim p) "").0 t)),
      )
      | inr t ↦ (
        λ h. (p, refl, ne_of p "" e, ne_of (paths.trim p) "" t, some-same (rw (e, t) at h)),
        λ (q, same, _, _, there).
            rw (e, t)
              (ap some (ap (λ x. resolve_workspace_path paths x root) (some-same same) ∙ there)),
      )
    ]
  ]

  active_path-Uses :
      (r : Run) (i : Issue) (target : String)
      → (active_path paths root (entry r i) ≡ some target) ↔ Uses r i target
  unfolding active_path resolved_if_set trimmed
  active_path-Uses r i target = elim (Bool-cases (r.workspace_path == "")) [
    | inl e ↦
        let (to, from) = issue_directory i.workspace_path target in
        let empty = (eq_iff r.workspace_path "").0 e in
        (
          λ h. inr (empty, to (rw e at h)),
          λ uses. elim uses [
            | inl (ne, _) ↦ absurd (ne empty)
            | inr (_, there) ↦ rw e (from there)
          ],
        )
    | inr e ↦ (
      λ h. inl (ne_of r.workspace_path "" e, some-same (rw e at h)),
      λ uses. elim uses [
        | inl (_, same) ↦ rw e (ap some same)
        | inr (empty, _) ↦ absurd (ne_of r.workspace_path "" e empty)
      ],
    )
  ]

  module _ (u target : String) (issues : List Issue) where
    -- the statement for the entry of a run, where it has one
    step :
        (r : Run) (rs : List Run)
        → (IsFreeOfOthers paths root u target (active_paths issues rs)
            ↔ All (LeavesFree u target issues) rs)
        → IsFreeOfOthers paths root u target (active_paths issues (r ∷ rs))
          ↔ All (LeavesFree u target issues) (r ∷ rs)
    unfolding active_paths
    step r rs (to, from) = elim (Option-cases (find_row issue_key r.issue_uuid issues)) [
      | inl none_found ↦ rw (active_paths, none_found) (λ h. ((λ i found. cc), to h), λ h. from h.1)
      | inr (i, found) ↦ elim (Bool-cases (r.last_state == "released")) [
        | inl e ↦
            rw (active_paths, found, e)
              ((λ h. ((λ j _ out. absurd (out ((eq_iff _ _).0 e))), to h)), (λ h. from h.1))
        | inr e ↦
            let (uses, used) = active_path-Uses r i target in
            rw (active_paths, found, e)
              (
                (λ h. ((λ j same _ other at. h.0 other (used (at_same j i same at))), to h.1)),
                (λ h. (
                  (λ other at. h.0 i refl (ne_of r.last_state "released" e) other (uses at)),
                  from h.1,
                )),
              )
      ]
    ]
      where
        at_same : (j i : Issue) → some i ≡ some j → Uses r j target → Uses r i target
        at_same j i same at = subst (λ x. Uses r x target) (sym (ap (λ o. get_or o i) same)) at

    active_paths-LeavesFree :
        (rows : List Run)
        → IsFreeOfOthers paths root u target (active_paths issues rows)
          ↔ All (LeavesFree u target issues) rows
    unfolding active_paths
    active_paths-LeavesFree [] = (λ h. tt, λ h. tt)
    active_paths-LeavesFree (r ∷ rs) = step r rs (active_paths-LeavesFree rs)

  -- No conflict is found exactly where every run of another issue of the table that was not released, one queued
  -- for a retry included, is in another directory than the one that the override resolves to. A run is in
  -- its own directory where one is noted of it, else in that of its issue, where this is not blank.
  pub find_workspace_conflict-LeavesFree :
      (u override : String) (d : Database)
      → (find_workspace_conflict paths root u override d ≡ none)
        ↔ All (LeavesFree u (resolve_workspace_path paths override root) d.issues) d.runs
  unfolding get_active_workspace_paths
  find_workspace_conflict-LeavesFree u override d =
      let target = resolve_workspace_path paths override root in
      let (to, from) = find_workspace_conflict-none_iff paths root u override d in
      let (out, back) = active_paths-LeavesFree u target d.issues d.runs in
      (λ h. out (to h), λ h. from (back h))
