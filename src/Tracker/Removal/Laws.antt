-- ===== src/Tracker/Removal/Laws.antt =====
-- What `deleteIssue` of src/db/tracker-issues.ts leaves.
use nano_symphony.Common.{
  String, Bool, not, map, ◌≡◌, refl, sym, ap, ◌∙◌, ◌≢◌, inl, inr, true, false, some, Option-cases,
  List, [], ◌∷◌, ◌==◌, eq_iff, if◌then◌else◌, Bool-cases, keep, find_row, delete_rows, Lacks,
  is_text,
}
use nano_symphony.Tracker.Types.{Issue, Blocker, Database, issue_key, run_key}
use nano_symphony.Tracker.Artifacts.{artifact_issue}
use nano_symphony.Tracker.Metrics.{metrics_key}
use nano_symphony.Tracker.Runs.{get_run}
use nano_symphony.Tracker.Isolation.{View, view, differ}
use nano_symphony.Tracker.Removal.{
  label_issue, blocked_issue, blocking_issue, event_issue, call_issue, result_issue, comment_issue,
  delete_all, delete_issue,
}

true-false : true ≡ false → ⊥
true-false e = cc

module _ {ℓ} {A : Type ℓ} (key : A → String) where
  Lacks-delete_rows : (k : String) (rows : List A) → Lacks key k (delete_rows key k rows)
  unfolding delete_rows
  Lacks-delete_rows k [] = tt
  Lacks-delete_rows k (r ∷ rs) = elim (Bool-cases (key r == k)) [
    | inl e ↦ rw e (Lacks-delete_rows k rs)
    | inr e ↦
        rw e ((λ x. absurd (true-false (sym ((eq_iff (key r) k).1 x) ∙ e))), Lacks-delete_rows k rs)
  ]

  Lacks-delete_other :
      (j : A → String) (k : String) (rows : List A) (u : String)
      → Lacks key k rows
      → Lacks key k (delete_rows j u rows)
  unfolding delete_rows
  Lacks-delete_other j k [] u h = tt
  Lacks-delete_other j k (r ∷ rs) u h = elim (Bool-cases (j r == u)) [
    | inl e ↦ rw e (Lacks-delete_other j k rs u h.1)
    | inr e ↦ rw e (h.0, Lacks-delete_other j k rs u h.1)
  ]

  module _ (u v : String) (apart : u ≢ v) where
    other_key : (r : A) → (key r == u) ≡ true → (key r == v) ≡ false
    other_key r e = rw ((eq_iff (key r) u).0 e) (differ u v apart)

    keep-delete_rows :
        (rows : List A)
        → keep (λ r. key r == v) (delete_rows key u rows) ≡ keep (λ r. key r == v) rows
    unfolding delete_rows
    keep-delete_rows [] = refl
    keep-delete_rows (r ∷ rs) = elim (Bool-cases (key r == u)) [
      | inl e ↦ rw (e, other_key r e) (keep-delete_rows rs)
      | inr e ↦ rw e (ap (λ l. if key r == v then r ∷ l else l) (keep-delete_rows rs))
    ]

    find_row-delete_rows :
        (rows : List A) → find_row key v (delete_rows key u rows) ≡ find_row key v rows
    unfolding delete_rows find_row
    find_row-delete_rows [] = refl
    find_row-delete_rows (r ∷ rs) = elim (Bool-cases (key r == u)) [
      | inl e ↦ rw (e, other_key r e) (find_row-delete_rows rs)
      | inr e ↦ rw e (ap (λ o. if key r == v then some r else o) (find_row-delete_rows rs))
    ]

-- No row of these tables names the issue.
pub record Forgotten (u : String) (d : Database) : Type 0 where
  pub issues : Lacks issue_key u d.issues
  pub runs : Lacks run_key u d.runs
  pub labels : Lacks label_issue u d.labels
  pub blocked : Lacks blocked_issue u d.blockers
  pub blocking : Lacks blocking_issue u d.blockers
  pub events : Lacks event_issue u d.events
  pub comments : Lacks comment_issue u d.comments
  pub artifacts : Lacks artifact_issue u d.artifacts
  pub results : Lacks result_issue u d.results
  pub llm_calls : Lacks call_issue u d.llm_calls
  pub metrics : Lacks metrics_key u d.metrics

delete_all-Forgotten : (u : String) (d : Database) → Forgotten u (delete_all u d)
unfolding delete_all
delete_all-Forgotten u d = record {
  issues = Lacks-delete_rows issue_key u d.issues;
  runs = Lacks-delete_rows run_key u d.runs;
  labels = Lacks-delete_rows label_issue u d.labels;
  blocked =
      Lacks-delete_other blocked_issue blocking_issue u _ u
        (Lacks-delete_rows blocked_issue u d.blockers);
  blocking = Lacks-delete_rows blocking_issue u _;
  events = Lacks-delete_rows event_issue u d.events;
  comments = Lacks-delete_rows comment_issue u d.comments;
  artifacts = Lacks-delete_rows artifact_issue u d.artifacts;
  results = Lacks-delete_rows result_issue u d.results;
  llm_calls = Lacks-delete_rows call_issue u d.llm_calls;
  metrics = Lacks-delete_rows metrics_key u d.metrics;
}

-- what the tables hold of an issue, without a blocker of it
abbrev pub without : String → View → View
without u w = record w { blocked_by = keep (λ b. not (b == u)) w.blocked_by }

names-delete_rows :
    (u : String) (p : Blocker → Bool) (rows : List Blocker)
    → map blocking_issue (keep p (delete_rows blocking_issue u rows))
      ≡ keep (λ b. not (b == u)) (map blocking_issue (keep p rows))
unfolding delete_rows
names-delete_rows u p [] = refl
names-delete_rows u p (b ∷ rows) =
    let rest = names-delete_rows u p rows in
    elim (Bool-cases (b.blocker_uuid == u)) [
      | inl e ↦ elim (Bool-cases (p b)) [ inl k ↦ rw (e, k) (rw e rest) | inr k ↦ rw (e, k) rest ]
      | inr e ↦ elim (Bool-cases (p b)) [
        | inl k ↦ rw (e, k) (rw e (ap (λ l. b.blocker_uuid ∷ l) rest))
        | inr k ↦ rw (e, k) rest
      ]
    ]

delete_all-view :
    (u v : String) (d : Database) → u ≢ v → view v (delete_all u d) ≡ without u (view v d)
unfolding delete_all
delete_all-view u v d apart = λ i. record {
  issue = find_row-delete_rows issue_key u v apart d.issues i;
  run = find_row-delete_rows run_key u v apart d.runs i;
  labels = keep-delete_rows label_issue u v apart d.labels i;
  events = keep-delete_rows event_issue u v apart d.events i;
  results = keep-delete_rows result_issue u v apart d.results i;
  artifacts = keep-delete_rows artifact_issue u v apart d.artifacts i;
  comments = keep-delete_rows comment_issue u v apart d.comments i;
  llm_calls = keep-delete_rows call_issue u v apart d.llm_calls i;
  metrics = find_row-delete_rows metrics_key u v apart d.metrics i;
  plan_runs = keep (λ r. is_text r.caller_issue_uuid v) d.plan_runs;
  blocked_by = names i;
}
  where
    names :
        map blocking_issue (
          keep
            (λ b. blocked_issue b == v)
            (delete_rows blocking_issue u (delete_rows blocked_issue u d.blockers)))
        ≡ keep
            (λ b. not (b == u))
            (map blocking_issue (keep (λ b. blocked_issue b == v) d.blockers))
    names =
        names-delete_rows u (λ b. blocked_issue b == v) (delete_rows blocked_issue u d.blockers)
        ∙ ap (λ l. keep (λ b. not (b == u)) (map blocking_issue l))
            (keep-delete_rows blocked_issue u v apart d.blockers)

pub get_run-delete_issue :
    (k u : String) (d : Database) → k ≢ u → get_run u (delete_issue k d).0 ≡ get_run u d
unfolding delete_issue delete_all get_run
get_run-delete_issue k u d apart = elim (Option-cases (find_row issue_key k d.issues)) [
  | inl e ↦ rw (delete_issue, e) refl
  | inr (i, e) ↦ rw (delete_issue, e) (find_row-delete_rows run_key k u apart d.runs)
]

-- Deleting an issue that is there: the tables of issues, runs, labels, events, comments, artifacts, results,
-- calls and metrics have no row of it, and no row of the blockers names it as the blocked issue or as the blocker.
-- The plan runs stay as they were, also those that the issue called. Of each other issue the tables hold what they
-- held, save that the deleted issue is no longer among its blockers.
pub delete_issue-Forgotten :
    (u : String) (i : Issue) (d : Database)
    → find_row issue_key u d.issues ≡ some i
    → let (d', deletion) = delete_issue u d in
      (deletion.deleted ≡ true)
      × Forgotten u d'
      × (d'.plan_runs ≡ d.plan_runs)
      × ((v : String) → u ≢ v → view v d' ≡ without u (view v d))
unfolding delete_issue delete_all find_row
delete_issue-Forgotten u i d found =
    rw (delete_issue, found)
      (refl, delete_all-Forgotten u d, refl, λ v apart. delete_all-view u v d apart)
