-- ===== src/Mcp/Tools/Handoff.antt =====
-- A hand-off to a plan run, src/mcp/tools.ts, and its cancellation, src/http/routes/plan-runs.ts.
use nano_symphony.Common.{
  ℕ, String, ◌≡◌, refl, sym, ap, ◌∙◌, inl, inr, Bool, true, false, ◌&&◌, ◌||◌, not, none, some,
  List, [], ◌∷◌, ◌++◌, arith, ◌==◌, eq_refl, if◌then◌else◌, Bool-cases, get_or, is_text, one_of,
  keep, any, find_row, update_rows, find_row-update_rows, key-find_row, insert_by, sort_by,
}
use mathlib.Core.Option
use mathlib.Core.Option.{none-ne-some}
use nano_symphony.Tracker.Types.{Issue, PlanRun, PlanRunState, Database, issue_key, plan_run_key}
use nano_symphony.Tracker.Issues.{
  get_issue, set_issue, update_issue_state, update_issue_plan_run_id, list_issues_by_plan_run,
}
use nano_symphony.Tracker.Runs.{release_issue, update_last_issue_state, set_run}
use nano_symphony.Tracker.Events.{record_event}
use nano_symphony.Tracker.PlanRuns.{
  insert_plan_run, inserted_plan_run, get_plan_run, set_plan_run, finish_plan_run,
}
use nano_symphony.Worker.Env.{Env, log_event}
use nano_symphony.Plan.Routes.{delete_route, cancel_for_operator, cancel_all_for_operator}
use nano_symphony.Mcp.Tools.Host.{Host}
use nano_symphony.Mcp.Tools.Schemas.{SpawnPlanRun}
use nano_symphony.Mcp.Tools.Handle.{
  pause_caller, insert_spawned, spawn_plan_run, spawn_input, run_id_of,
}
use nano_symphony.Mcp.Tools.States.{map-moved, state_of, state_of-set_issue}

or_true : (b : Bool) {c : Bool} → c ≡ true → (b || c) ≡ true
or_true true h = refl
or_true false h = h

module _ {ℓ} {A : Type ℓ} where
  any-keep :
      (p q : A → Bool) (xs : List A) → any (λ x. p x && q x) xs ≡ true → any p (keep q xs) ≡ true
  any-keep p q [] h = h
  any-keep p q (x ∷ xs) h = ground (arith, any-keep p q xs)

  any-insert_by :
      (rank : A → ℕ) (p : A → Bool) (x : A) (xs : List A)
      → any p (insert_by rank x xs) ≡ (p x || any p xs)
  unfolding insert_by
  any-insert_by rank p x [] = refl
  any-insert_by rank p x (y ∷ ys) = ground (arith, any-insert_by rank p x ys)

  any-sort_by : (rank : A → ℕ) (p : A → Bool) (xs : List A) → any p (sort_by rank xs) ≡ any p xs
  unfolding sort_by
  any-sort_by rank p [] = refl
  any-sort_by rank p (x ∷ xs) =
      any-insert_by rank p x (sort_by rank xs) ∙ ap (λ b. p x || b) (any-sort_by rank p xs)

  any-update_rows :
      (key : A → String) (k : String) (f : A → A) (p : A → Bool) (rows : List A) (r : A)
      → find_row key k rows ≡ some r
      → p (f r) ≡ true
      → any p (update_rows key k f rows) ≡ true
  unfolding find_row update_rows
  any-update_rows key k f p [] r h e = cc
  any-update_rows key k f p (x ∷ rows) r h e = elim (Bool-cases (key x == k)) [
    | inl t ↦
        let found : some x ≡ some r = rw t at h in
        let same : p (f x) ≡ p (f r) = ap (λ o. p (f (get_or o x))) found in rw (t, same ∙ e) refl
    | inr t ↦ rw t (or_true (p x) (any-update_rows key k f p rows r (rw t at h) e))
  ]

-- an issue that a cancellation of its plan run cancels
abbrev is_open_one : String → Issue → Bool
is_open_one u i = i.uuid == u && not (one_of i.state ("done" ∷ "cancelled" ∷ []))

state_of-write :
    (u w : String) (now : ℕ) (s t : String) (d : Database)
    → state_of u d ≡ some t
    → state_of u (update_issue_state now w s d) ≡ some (if w == u then s else t)
unfolding update_issue_state set_issue
state_of-write u w now s t d h =
    let f : Issue → Issue = λ i. record i { state = s; updated_at = now } in
    let row = find_row-update_rows issue_key u w f (λ i. refl) d.issues in
    elim (Bool-cases (w == u)) [
      | inl e ↦
          rw (row, e)
            (map-moved f s (find_row issue_key u d.issues) (λ i. refl)
              ∙ ap (λ o. Option.map (λ _. s) o) h)
      | inr e ↦ rw (row, e) h
    ]

and_false : (b : Bool) → (b && false) ≡ false
and_false true = refl
and_false false = refl

and_true : (b : Bool) → (b && true) ≡ b
and_true true = refl
and_true false = refl

if_or :
    (a b : Bool) (s : String)
    → (if b then "cancelled" else (if a then "cancelled" else s))
      ≡ (if a || b then "cancelled" else s)
if_or true true s = refl
if_or true false s = refl
if_or false b s = refl

state_of-cancel_for_operator :
    (env : Env) (id u : String) (i : Issue) (d : Database) (s : String)
    → state_of u d ≡ some s
    → state_of u (cancel_for_operator env id i d)
      ≡ some (if is_open_one u i then "cancelled" else s)
unfolding cancel_for_operator log_event record_event
state_of-cancel_for_operator env id u i d s h =
    elim (Bool-cases (one_of i.state ("done" ∷ "cancelled" ∷ []))) [
      | inl e ↦ rw (e, and_false (i.uuid == u)) h
      | inr e ↦ rw (e, and_true (i.uuid == u)) (state_of-write u i.uuid env.now "cancelled" s d h)
    ]

state_of-cancel_all :
    (env : Env) (id u : String) (is : List Issue) (d : Database) (s : String)
    → state_of u d ≡ some s
    → state_of u (cancel_all_for_operator env id is d)
      ≡ some (if any (is_open_one u) is then "cancelled" else s)
unfolding cancel_all_for_operator
state_of-cancel_all env id u [] d s h = h
state_of-cancel_all env id u (i ∷ is) d s h =
    let step = state_of-cancel_for_operator env id u i d s h in
    let rest = state_of-cancel_all env id u is (cancel_for_operator env id i d) _ step in
    rest ∙ ap some (if_or (is_open_one u i) (any (is_open_one u) is) s)

any-paused :
    (env : Env) (u id : String) (i : Issue) (d : Database)
    → find_row issue_key u d.issues ≡ some i
    → any (is_open_one u) (list_issues_by_plan_run id (pause_caller env u id d)) ≡ true
unfolding list_issues_by_plan_run pause_caller update_last_issue_state release_issue set_run
    update_issue_state update_issue_plan_run_id set_issue
any-paused env u id i d found =
    let f : Issue → Issue = λ x. record x { plan_run_id = some id; updated_at = env.now } in
    let g : Issue → Issue = λ x. record x { state = "awaiting_plan"; updated_at = env.now } in
    let linked : find_row issue_key u (update_rows issue_key u f d.issues) ≡ some (f i) =
      rw (find_row-update_rows issue_key u u f (λ x. refl) d.issues, eq_refl u, found) refl in
    let own = key-find_row issue_key u d.issues i found in
    any-sort_by (λ x. x.created_at) (is_open_one u) _
    ∙ any-keep (is_open_one u) (λ x. is_text x.plan_run_id id) _
        (any-update_rows issue_key u g (λ x. is_open_one u x && is_text x.plan_run_id id) _ (f i)
          linked (rw (own, eq_refl u, eq_refl id) refl))

find_row-append :
    (id : String) (rows : List PlanRun) (r : PlanRun)
    → find_row plan_run_key id rows ≡ none
    → r.id ≡ id
    → find_row plan_run_key id (rows ++ r ∷ []) ≡ some r
unfolding find_row
find_row-append id [] r h own = rw (own, eq_refl id) refl
find_row-append id (x ∷ rows) r h own = elim (Bool-cases (x.id == id)) [
  | inl e ↦ absurd (none-ne-some x (sym (rw e at h)))
  | inr e ↦ rw e (find_row-append id rows r (rw e at h) own)
]

-- An issue that hands off to a plan run is cancelled with that plan run: where the issue is there and the id of the plan run
-- is new, an operator's cancellation of the plan run leaves the issue cancelled.
pub delete_route-spawn_plan_run :
    (host : Host) (u : String) (p : SpawnPlanRun) (i : Issue) (d : Database)
    → get_issue u d ≡ some i
    → get_plan_run (run_id_of host) d ≡ none
    → state_of u
        (delete_route host.env (run_id_of host) (spawn_plan_run host u true p d).0).database
      ≡ some "cancelled"
unfolding spawn_plan_run insert_spawned insert_plan_run inserted_plan_run log_event record_event
    pause_caller update_last_issue_state release_issue set_run update_issue_state
    update_issue_plan_run_id set_issue finish_plan_run set_plan_run get_plan_run get_issue
    delete_route find_row list_issues_by_plan_run
delete_route-spawn_plan_run host u p i d found fresh =
    let id = run_id_of host in
    let run = inserted_plan_run (spawn_input host u true p) host.env.now in
    let spawned = insert_spawned host u true p d in
    let d0 = pause_caller host.env u id spawned in
    let d1 =
      finish_plan_run id PlanRunState.cancelled (some "cancelled by operator") host.env.now d0 in
    let here : get_plan_run id d0 ≡ some run = find_row-append id d.plan_runs run fresh refl in
    let waiting : state_of u d1 ≡ some "awaiting_plan" =
      (let linked = update_issue_plan_run_id host.env.now u (some id) spawned in
        let before : state_of u d ≡ some i.state = rw found refl in
        let kept =
          state_of-set_issue u (λ x. record x { plan_run_id = some id; updated_at = host.env.now })
            spawned (λ x. refl) (λ x. refl) in
        state_of-write u u host.env.now "awaiting_plan" i.state linked (kept ∙ before)
        ∙ rw (eq_refl u) refl) in
    rw (delete_route, here)
      (state_of-cancel_all host.env id u (list_issues_by_plan_run id d1) d1 "awaiting_plan" waiting
        ∙ rw (any-paused host.env u id i spawned found) refl)
