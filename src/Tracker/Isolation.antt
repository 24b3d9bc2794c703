-- ===== src/Tracker/Isolation.antt =====
-- The writes of src/db/ that name one issue, as another issue sees them.
use nano_symphony.Common.{
  ℕ, String, ◌≡◌, refl, ap, ◌∙◌, ◌≢◌, inl, inr, Bool, false, ◌&&◌, Option, none, List, [], ◌∷◌,
  ◌++◌, map, is_text, update_rows, arith, ◌==◌, eq_iff, nat_eq, Bool-cases, keep, find_row,
  find_row-update_rows,
}
use nano_symphony.Json.{Json}
use nano_symphony.Tracker.Types.{
  Issue, Run, Event, IssueResult, Artifact, Database, Label, Comment, LlmCall, IssueMetrics,
  PlanRun, Blocker, issue_key, run_key,
}
use nano_symphony.Tracker.Issues.{get_issue, set_issue, update_issue_state, blocker_key}
use nano_symphony.Tracker.Runs.{get_run, set_run, release_issue}
use nano_symphony.Tracker.Events.{record_event}
use nano_symphony.Tracker.Results.{is_row, put_result, upsert_issue_result}
use nano_symphony.Tracker.Artifacts.{artifact_issue, ArtifactInput, artifact_of, insert_artifact}
use nano_symphony.Tracker.Metrics.{metrics_key}
use nano_symphony.Tracker.Removal.{
  label_issue, event_issue, result_issue, comment_issue, call_issue, blocked_issue, blocking_issue,
}
use nano_symphony.Worker.Env.{Env, log_event}

-- what the tables hold of one issue
pub record View : Type 0 where
  pub issue : Option Issue
  pub run : Option Run
  pub labels : List Label
  pub events : List Event
  pub results : List IssueResult
  pub artifacts : List Artifact
  pub comments : List Comment
  pub llm_calls : List LlmCall
  pub metrics : Option IssueMetrics
  pub plan_runs : List PlanRun  -- those that it called
  pub blocked_by : List String  -- its blockers, without the states noted of them

abbrev pub view : String → Database → View
view v d = record {
  issue = find_row issue_key v d.issues;
  run = find_row run_key v d.runs;
  labels = keep (λ l. label_issue l == v) d.labels;
  events = keep (λ e. event_issue e == v) d.events;
  results = keep (λ r. result_issue r == v) d.results;
  artifacts = keep (λ a. artifact_issue a == v) d.artifacts;
  comments = keep (λ c. comment_issue c == v) d.comments;
  llm_calls = keep (λ c. call_issue c == v) d.llm_calls;
  metrics = find_row metrics_key v d.metrics;
  plan_runs = keep (λ r. is_text r.caller_issue_uuid v) d.plan_runs;
  blocked_by = map blocking_issue (keep (λ b. blocked_issue b == v) d.blockers);
}

-- Two databases hold the same of an issue.
abbrev pub Same : String → Database → Database → Type 0
Same v a b = view v b ≡ view v a

-- a row that a test drops, behind the others
pub keep-append_one {ℓ} :
    {A : Type ℓ} (p : A → Bool) (xs : List A) (x : A)
    → p x ≡ false
    → keep p (xs ++ x ∷ []) ≡ keep p xs
keep-append_one p [] x h = rw h
keep-append_one p (y ∷ ys) x h = elim (Bool-cases (p y)) [
  | inl e ↦ rw e (ap (λ l. y ∷ l) (keep-append_one p ys x h))
  | inr e ↦ rw e (keep-append_one p ys x h)
]

pub differ : (u v : String) → u ≢ v → (u == v) ≡ false
differ u v apart = elim (Bool-cases (u == v)) [
  | inl e ↦ absurd (apart ((eq_iff u v).0 e))
  | inr e ↦ e
]

keep-put_result :
    (v : String) (new : IssueResult) (rows : List IssueResult)
    → (new.issue_uuid == v) ≡ false
    → keep (λ r. result_issue r == v) (put_result new rows) ≡ keep (λ r. result_issue r == v) rows
unfolding put_result
keep-put_result v new [] h = rw h
keep-put_result v new (r ∷ rs) h =
    let rest = keep-put_result v new rs h in
    let row = is_row new.issue_uuid new.attempt r && nat_eq r.version new.version in
    elim (Bool-cases (r.issue_uuid == v)) [
      | inl e ↦
          let other : (r.issue_uuid == new.issue_uuid) ≡ false = ground (
            arith,
            eq_iff r.issue_uuid new.issue_uuid,
            eq_iff r.issue_uuid v,
            eq_iff new.issue_uuid v,
          ) in
          rw (other, e) (ap (λ l. r ∷ l) rest)
      | inr e ↦ elim (Bool-cases row) [ inl t ↦ rw (t, e) refl | inr t ↦ rw (t, e) rest ]
    ]

-- the names of the blockers do not depend on the states noted of them
blocked_by-update_rows :
    (p : String → Bool) (u state : String) (rows : List Blocker)
    → map blocking_issue (
        keep
          (λ b. p (blocked_issue b))
          (update_rows blocker_key u (λ b. record b { blocker_state = state }) rows))
      ≡ map blocking_issue (keep (λ b. p (blocked_issue b)) rows)
unfolding update_rows
blocked_by-update_rows p u state [] = refl
blocked_by-update_rows p u state (b ∷ rows) =
    let rest = blocked_by-update_rows p u state rows in
    elim (Bool-cases (b.blocker_uuid == u)) [
      | inl e ↦ elim (Bool-cases (p b.issue_uuid)) [
        | inl k ↦ rw (e, k) (ap (λ l. b.blocker_uuid ∷ l) rest)
        | inr k ↦ rw (e, k) rest
      ]
      | inr e ↦ elim (Bool-cases (p b.issue_uuid)) [
        | inl k ↦ rw (e, k) (ap (λ l. b.blocker_uuid ∷ l) rest)
        | inr k ↦ rw (e, k) rest
      ]
    ]

module _ (u v : String) (apart : u ≢ v) where
  pub Same-set_issue :
      (f : Issue → Issue) (d : Database)
      → ((i : Issue) → issue_key (f i) ≡ issue_key i)
      → Same v d (set_issue u f d)
  unfolding set_issue get_issue
  Same-set_issue f d same =
      ap (λ x. record (view v d) { issue = x })
        (find_row-update_rows issue_key v u f same d.issues ∙ rw (differ u v apart))

  pub Same-set_run :
      (f : Run → Run) (d : Database)
      → ((r : Run) → run_key (f r) ≡ run_key r)
      → Same v d (set_run u f d)
  unfolding set_run get_run
  Same-set_run f d same =
      ap (λ x. record (view v d) { run = x })
        (find_row-update_rows run_key v u f same d.runs ∙ rw (differ u v apart))

  pub Same-log_event :
      (env : Env) (kind message : String) (payload : Option Json) (d : Database)
      → Same v d (log_event env u kind message payload d)
  unfolding log_event record_event get_issue get_run
  Same-log_event env kind message payload d =
      ap (λ x. record (view v d) { events = x })
        (keep-append_one (λ e. event_issue e == v) d.events _ (differ u v apart))

  pub Same-update_issue_state :
      (now : ℕ) (state : String) (d : Database) → Same v d (update_issue_state now u state d)
  unfolding update_issue_state get_issue get_run set_issue
  Same-update_issue_state now state d =
      let issue =
        find_row-update_rows issue_key v u
          (λ (i : Issue). record i { state = state; updated_at = now }) (λ i. refl) d.issues
        ∙ rw (differ u v apart) in
      let names = blocked_by-update_rows (λ x. x == v) u state d.blockers in
      λ k. record (view v d) { issue = issue k; blocked_by = names k }

  pub Same-release_issue : (state : String) (d : Database) → Same v d (release_issue u state d)
  unfolding release_issue get_issue get_run set_run
  Same-release_issue state d = Same-set_run (λ r. record r { last_state = state }) d (λ i. refl)

  pub Same-upsert_issue_result :
      (attempt now : ℕ) (payload : Json) (validated : Bool) (d : Database)
      → Same v d (upsert_issue_result u attempt now payload validated none d).0
  unfolding upsert_issue_result get_issue get_run
  Same-upsert_issue_result attempt now payload validated d =
      ap (λ x. record (view v d) { results = x }) (keep-put_result v _ d.results (differ u v apart))

  pub Same-insert_artifact :
      (byte_length : String → ℕ) (id : String) (now : ℕ) (i : ArtifactInput) (d : Database)
      → i.issue_uuid ≡ u
      → Same v d (insert_artifact byte_length id now i d)
  unfolding insert_artifact artifact_of get_issue get_run
  Same-insert_artifact byte_length id now i d own =
      ap (λ x. record (view v d) { artifacts = x })
        (keep-append_one (λ a. artifact_issue a == v) d.artifacts _ (rw own (differ u v apart)))
