-- ===== src/Http/Issues/Laws.antt =====
-- What the routes of src/http/routes/issues.ts leave.
use nano_symphony.Common.{
  ℕ, String, ◌≡◌, refl, sym, ap, ◌∙◌, ◌≢◌, inl, inr, true, false, Option, none, some, List, arith,
  ◌∷◌, [], ◌==◌, ◌⊎◌, is_text, eq_iff, eq_refl, Bool-cases, Option-cases, get_or, All, All-append,
  All-keep, find_row, find_row-update_rows,
}
use mathlib.Core.Option
use nano_symphony.Tracker.Types.{Issue, IssuePatch, Run, Blocker, Database, issue_key}
use nano_symphony.Tracker.Issues.{
  get_issue, set_issue, update_issue, is_taken, clashes, patch_issue, patch_labels, replace_labels,
  update_issue_state, insert_blocker, drop_block,
}
use nano_symphony.Tracker.Issues.Candidates.{is_candidate}
use nano_symphony.Tracker.Runs.{set_run, get_run, update_last_issue_state}
use nano_symphony.Tracker.Runs.Laws.{get_run-update_last_issue_state}
use nano_symphony.Tracker.Events.{record_event}
use nano_symphony.Mcp.Tools.States.{state_of-update_issue_state}
use nano_symphony.Worker.Env.{Env, log_event}
use nano_symphony.Worker.Settle.Guards.{issue_state}
use nano_symphony.Worker.Settle.Rest.{same_state_rests}
use nano_symphony.Http.Issues.{
  add_found, if_found, if_valid, IssueUpdate, ChangeRequest, patch_of, update_route, IssueReply,
  updated, request_changes, add_blocker,
}

-- the state of the issue after its state was written
at_todo :
    (u : String) (now : ℕ) (d : Database) (i : Issue)
    → get_issue u d ≡ some i
    → issue_state u (update_issue_state now u "todo" d) ≡ some "todo"
unfolding get_issue
at_todo u now d i found =
    let state : issue_state u d ≡ some i.state = ap (λ o. Option.map (λ x. x.state) o) found in
    state_of-update_issue_state u now "todo" d ∙ ap (λ o. Option.map (λ _. "todo") o) state

-- A reviewer who requests changes of an issue that is there and has a run: the issue is in todo, and no query at
-- any time takes it as a candidate, because its run is noted as left in todo.
pub request_changes-stuck :
    (env : Env) (u : String) (p : ChangeRequest) (d : Database) (i : Issue) (y : Run)
    → get_issue u d ≡ some i
    → get_run u d ≡ some y
    → let d' = (request_changes env u (some p) d).database in
      (issue_state u d' ≡ some "todo")
      × ((now : ℕ) (i' : Issue) → get_issue u d' ≡ some i' → is_candidate now d' i' ≡ false)
unfolding request_changes log_event record_event update_last_issue_state set_run update_issue_state
    set_issue get_run get_issue
request_changes-stuck env u p d i y found run =
    let d' = (request_changes env u (some p) d).database in
    let at : issue_state u d' ≡ some "todo" = at_todo u env.now d i found in
    let left : get_run u d' ≡ some (record y { last_issue_state = "todo" }) =
      get_run-update_last_issue_state u "todo" u (update_issue_state env.now u "todo" d)
      ∙ (rw (eq_refl u)
          (ap (λ o. Option.map (λ (r : Run). record r { last_issue_state = "todo" }) o) run)) in
    (at, same_state_rests u "todo" d' (record y { last_issue_state = "todo" }) left refl at todo_ne)
  where
    todo_ne : ◌≢◌ {A = String} "todo" ""
    todo_ne = ground (arith, eq_iff "todo" "")

true-false : true ≡ false → ⊥
true-false e = cc

issues-patch_labels :
    (u : String) (labels : Option (List String)) (d : Database)
    → (patch_labels u labels d).issues ≡ d.issues
unfolding patch_labels replace_labels
issues-patch_labels u none d = refl
issues-patch_labels u (some labels) d = refl

get_issue-patched :
    (u : String) (f : Issue → Issue) (labels : Option (List String)) (d : Database) (i : Issue)
    → ((x : Issue) → issue_key (f x) ≡ issue_key x)
    → get_issue u d ≡ some i
    → get_issue u (patch_labels u labels (set_issue u f d)) ≡ some (f i)
unfolding set_issue get_issue
get_issue-patched u f labels d i same found =
    ap (λ is. find_row issue_key u is) (issues-patch_labels u labels (set_issue u f d))
    ∙ (find_row-update_rows issue_key u u f same d.issues ∙ rw (eq_refl u, found) refl)

get_issue-update_issue :
    (now : ℕ) (u : String) (q : IssuePatch) (d : Database) (i : Issue)
    → get_issue u d ≡ some i
    → clashes u q.identifier d ≡ false
    → (get_issue u (update_issue now u q d).0 ≡ some (patch_issue now q i))
      × ((update_issue now u q d).1 ≡ some (patch_issue now q i))
unfolding update_issue patch_issue
get_issue-update_issue now u q d i found free =
    let patched = get_issue-patched u (patch_issue now q) q.labels d i (λ x. refl) found in
    rw (update_issue, found, free) (patched, patched)

-- the route's reply to an update that succeeds
abbrev Succeeds : IssueReply → Database → Type 0
Succeeds r d = (r.status ≡ 200) × (r.database ≡ d)

updated-Succeeds :
    (out : Database × Option Issue) (i : Issue) → out.1 ≡ some i → Succeeds (updated out) out.0
updated-Succeeds (d, none) i e = cc
updated-Succeeds (d, some j) i e = (refl, refl)

update_issue-clashes :
    (now : ℕ) (u : String) (q : IssuePatch) (d : Database) (i : Issue)
    → get_issue u d ≡ some i
    → clashes u q.identifier d ≡ true
    → update_issue now u q d ≡ (d, none)
unfolding update_issue
update_issue-clashes now u q d i found taken = rw (update_issue, found, taken) refl

-- Another issue has the identifier that an update sets.
abbrev pub IsTaken : String → Option (Option String) → Database → Type 0
IsTaken u identifier d =
    (s : String) × (identifier ≡ some (some s))
    × ¬ All (λ j. j.uuid ≢ u → j.identifier ≢ some s) d.issues

some_text : (o : Option String) (s : String) → is_text o s ≡ true → o ≡ some s
some_text none s h = cc
some_text (some t) s h = ap some ((eq_iff t s).0 h)

is_taken-All :
    (u s : String) (is : List Issue)
    → is_taken u s is ≡ true
    → ¬ All (λ j. j.uuid ≢ u → j.identifier ≢ some s) is
unfolding is_taken
is_taken-All u s [] h free = cc
is_taken-All u s (i ∷ is) h free = elim (Bool-cases (is_taken u s is)) [
  | inl e ↦ is_taken-All u s is e free.1
  | inr e ↦ elim (Bool-cases (i.uuid == u)) [
    | inl k ↦ ground (arith, h, e, k)
    | inr k ↦
        free.0 (λ same. true-false (sym ((eq_iff i.uuid u).1 same) ∙ k))
          (some_text i.identifier s (ground (arith, h, e, k)))
  ]
]

clashes-IsTaken :
    (u : String) (o : Option (Option String)) (d : Database) → clashes u o d ≡ true → IsTaken u o d
unfolding clashes
clashes-IsTaken u none d h = cc
clashes-IsTaken u (some none) d h = cc
clashes-IsTaken u (some (some s)) d h = (s, refl, is_taken-All u s d.issues h)

-- The issue is in a state, and has no plan run, no output schema, no scratchpad and no plan data.
pub record Detached (i : Issue) (state : String) : Type 0 where
  pub in_state : i.state ≡ state
  pub plan_run_id : i.plan_run_id ≡ none
  pub expected_schema : i.expected_schema ≡ none
  pub scratchpad : i.scratchpad ≡ none
  pub plan_estimates_json : i.plan_estimates_json ≡ none
  pub plan_actuals_json : i.plan_actuals_json ≡ none
  pub plan_progress_json : i.plan_progress_json ≡ none

-- An update of an issue through the route, whatever fields its body has: it fails with 500 and changes nothing, and
-- then another issue has the identifier that it sets; or it succeeds, and the issue, in the state that the body
-- gives, else in its own, has left its plan run and lost its output schema, its scratchpad and its
-- plan's estimates, actuals and progress.
pub get_issue-update_route :
    (env : Env) (u : String) (p : IssueUpdate) (d : Database) (i : Issue)
    → get_issue u d ≡ some i
    → let r = update_route env u (some p) d in
      ((r.status ≡ 500) × (r.database ≡ d) × IsTaken u p.identifier d)
      ⊎ ((r.status ≡ 200)
          × ((i' : Issue) × (get_issue u r.database ≡ some i')
              × Detached i' (get_or p.state i.state)))
unfolding patch_of patch_issue update_route
get_issue-update_route env u p d i found = elim (Bool-cases (clashes u p.identifier d)) [
  | inl taken ↦
      let refused = update_issue-clashes env.now u (patch_of env.now i p) d i found taken in
      inl (
        rw (update_route, if_found, found, refused)
          (refl, refl, clashes-IsTaken u p.identifier d taken))
  | inr free ↦
      let (stored, answer) =
        get_issue-update_issue env.now u (patch_of env.now i p) d i found free in
      let ok =
        updated-Succeeds (update_issue env.now u (patch_of env.now i p) d)
          (patch_issue env.now (patch_of env.now i p) i) answer in
      inr (
        rw (update_route, if_found, found) ok.0,
        (
          patch_issue env.now (patch_of env.now i p) i,
          rw (update_route, if_found, found) (ap (get_issue u) ok.1 ∙ stored),
          record {
            in_state = refl;
            plan_run_id = refl;
            expected_schema = refl;
            scratchpad = refl;
            plan_estimates_json = refl;
            plan_actuals_json = refl;
            plan_progress_json = refl;
          },
        ),
      )
]

-- No row blocks the issue that it blocks.
abbrev pub NoSelfBlock : List Blocker → Type 0
NoSelfBlock = All (λ b. b.blocker_uuid ≢ b.issue_uuid)

All-drop_block :
    (u b : String) (rows : List Blocker) → NoSelfBlock rows → NoSelfBlock (drop_block u b rows)
unfolding drop_block
All-drop_block u b rows h = All-keep (λ r. r.blocker_uuid ≢ r.issue_uuid) _ rows h

NoSelfBlock-add_found :
    (env : Env) (u : String) (o : Option Issue) (d : Database)
    → NoSelfBlock d.blockers
    → NoSelfBlock (add_found env u o d).database.blockers
unfolding log_event record_event insert_blocker
NoSelfBlock-add_found env u none d h = h
NoSelfBlock-add_found env u (some b) d h = elim (Bool-cases (b.uuid == u)) [
  | inl e ↦ rw e h
  | inr e ↦ rw e (
      All-append (λ r. r.blocker_uuid ≢ r.issue_uuid) _ _ (All-drop_block u b.uuid d.blockers h)
        ((λ x. absurd (true-false (sym ((eq_iff b.uuid u).1 x) ∙ e))), tt))
]

NoSelfBlock-body :
    (env : Env) (u : String) (body : Option String) (d : Database)
    → NoSelfBlock d.blockers
    → NoSelfBlock (if_valid body (λ b x. add_found env u (get_issue b x) x) d).database.blockers
NoSelfBlock-body env u none d h = h
NoSelfBlock-body env u (some b) d h = NoSelfBlock-add_found env u (get_issue b d) d h

-- Adding a blocker keeps every issue from blocking itself, on every branch of the route.
pub add_blocker-NoSelfBlock :
    (env : Env) (u : String) (body : Option String) (d : Database)
    → NoSelfBlock d.blockers
    → NoSelfBlock (add_blocker env u body d).database.blockers
unfolding add_blocker
add_blocker-NoSelfBlock env u body d h = elim (Option-cases (get_issue u d)) [
  | inl e ↦ rw (add_blocker, if_found, e) h
  | inr (i, e) ↦ rw (add_blocker, if_found, e) (NoSelfBlock-body env u body d h)
]
