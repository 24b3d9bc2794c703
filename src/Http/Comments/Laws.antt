-- ===== src/Http/Comments/Laws.antt =====
-- What a comment can do to the state of its issue: src/http/routes/comments.ts.
use nano_symphony.Common.{
  ℕ, String, ◌≡◌, refl, ap, ◌∙◌, ◌⊎◌, inl, inr, Bool, true, false, ◌&&◌, not, Option, none, some,
  ◌==◌, eq_iff, Bool-cases, Option-cases, find_row,
}
use mathlib.Core.Option
use nano_symphony.Json.{Json, get}
use nano_symphony.Tracker.Types.{Issue, Run, Event, Database, issue_key}
use nano_symphony.Tracker.Issues.{get_issue, update_issue_state, update_issue_plan_estimates}
use nano_symphony.Tracker.Runs.{get_run, set_run, release_issue}
use nano_symphony.Tracker.Events.{record_event, get_latest_event_by_kind}
use nano_symphony.Tracker.Comments.{add_comment}
use nano_symphony.Worker.Env.{Env, log_event}
use nano_symphony.Plan.Schema.{is_truthy}
use nano_symphony.Mcp.Tools.Cases.{if_case}
use nano_symphony.Mcp.Tools.States.{state_of, state_of-set_issue, state_of-update_issue_state}
use nano_symphony.Http.Issues.{ChangeRequest, if_found, if_valid}
use nano_symphony.Http.Issues.Plans.{
  release_found, release_for_reschedule, payload_of, keep_estimates, take_estimates, approve_plan,
  revise_plan,
}
use nano_symphony.Http.Issues.Retrigger.{Notes}
use nano_symphony.Http.Comments.{
  Command, approve, revise, skip_plan, plain, CommentInput, obey, comment_on, comment_route,
}

-- the moves between states: a plan is approved or sent back, or a queued issue skips its plan
abbrev pub Moves : Option String → Option String → Type 0
Moves from to =
    (to ≡ from)
    ⊎ ((from ≡ some "plan_review") × ((to ≡ some "in_progress") ⊎ (to ≡ some "planning")))
    ⊎ ((from ≡ some "todo") × (to ≡ some "in_progress"))

issues-release_found :
    (u : String) (o : Option Run) (d : Database) → (release_found u o d).issues ≡ d.issues
unfolding release_issue set_run
issues-release_found u none d = refl
issues-release_found u (some r) d =
    if_case (λ (x : Database). x.issues ≡ d.issues) (r.last_state == "released") (λ _. refl)
      (λ _. refl)

state_of-release :
    (u : String) (d : Database) → state_of u (release_for_reschedule u d) ≡ state_of u d
unfolding release_for_reschedule
state_of-release u d =
    ap (λ is. Option.map (λ x. x.state) (find_row issue_key u is))
      (issues-release_found u (get_run u d) d)

state_of-keep_estimates :
    (now : ℕ) (u : String) (v : Option Json) (d : Database)
    → state_of u (keep_estimates now u v d) ≡ state_of u d
unfolding update_issue_plan_estimates
state_of-keep_estimates now u none d = refl
state_of-keep_estimates now u (some v) d =
    if_case (λ (x : Database). state_of u x ≡ state_of u d) (is_truthy v)
      (λ _.
        state_of-set_issue u (λ i. record i { plan_estimates_json = some v; updated_at = now }) d
          (λ i. refl) (λ i. refl))
      (λ _. refl)

state_of-take_estimates :
    (now : ℕ) (u : String) (e : Option Event) (d : Database)
    → state_of u (take_estimates now u e d) ≡ state_of u d
state_of-take_estimates now u none d = refl
state_of-take_estimates now u (some e) d =
    state_of-keep_estimates now u (get "estimates" (payload_of e)) d

-- the state of an issue that is there, after a write of it
state_of-written :
    (u : String) (now : ℕ) (s : String) (d : Database) (i : Issue)
    → get_issue u d ≡ some i
    → state_of u (update_issue_state now u s d) ≡ some s
unfolding get_issue
state_of-written u now s d i found =
    state_of-update_issue_state u now s d
    ∙ ap (λ o. Option.map (λ _. s) (Option.map (λ x. x.state) o)) found

and_left : (a b : Bool) → (a && b) ≡ true → a ≡ true
and_left true b h = refl
and_left false b h = h

module _ (env : Env) (u : String) (i : Issue) (d : Database) (found : get_issue u d ≡ some i) where
  here : state_of u d ≡ some i.state
  unfolding get_issue
  here = ap (λ o. Option.map (λ x. x.state) o) found

  state_of-approve_plan :
      (i.state == "plan_review") ≡ true
      → state_of u (approve_plan env u none d).database ≡ some "in_progress"
  unfolding approve_plan log_event record_event
  state_of-approve_plan e =
      rw (approve_plan, if_found, found, e)
        (state_of-release u _
          ∙ (state_of-take_estimates env.now u
                (get_latest_event_by_kind u "plan_submitted"
                  (update_issue_state env.now u "in_progress" d))
                _
              ∙ state_of-written u env.now "in_progress" d i found))

  state_of-revise_plan :
      (p : ChangeRequest)
      → (i.state == "plan_review") ≡ true
      → state_of u (revise_plan env u p d).database ≡ some "planning"
  unfolding revise_plan log_event record_event
  state_of-revise_plan p e =
      rw (revise_plan, if_found, found, e)
        (state_of-release u _ ∙ state_of-written u env.now "planning" d i found)

  in_state : (s : String) → (i.state == s) ≡ true → state_of u d ≡ some s
  in_state s e = here ∙ ap some ((eq_iff i.state s).0 e)

  Moves-obey : (c : Command) → Moves (state_of u d) (state_of u (obey env u i c d).0)
  unfolding obey
  Moves-obey approve = elim (Bool-cases (i.state == "plan_review")) [
    | inl e ↦ rw (obey, e) (inr (inl (in_state "plan_review" e, inl (state_of-approve_plan e))))
    | inr e ↦ rw (obey, e) (inl (state_of-release u d))
  ]
  Moves-obey (revise none) = inl refl
  Moves-obey (revise (some note)) =
      elim (Bool-cases (i.state == "plan_review" && not (note == ""))) [
        | inl e ↦
            let review = and_left (i.state == "plan_review") _ e in
            rw (obey, e)
              (inr (
                inl (
                  in_state "plan_review" review,
                  inr (state_of-revise_plan (record { note = note; feedback = none }) review),
                )))
        | inr e ↦ rw (obey, e) (inl refl)
      ]
  Moves-obey skip_plan = elim (Bool-cases (i.state == "todo")) [
    | inl e ↦
        rw (obey, e)
          (inr (
            inr (
              in_state "todo" e,
              state_of-release u _ ∙ state_of-written u env.now "in_progress" d i found,
            )))
    | inr e ↦ rw (obey, e) (inl refl)
  ]
  Moves-obey plain = inl refl

Moves-comment_on :
    (env : Env) (notes : Notes) (command : String → Command) (u : String) (i : Issue)
    (p : CommentInput) (d : Database)
    → get_issue u d ≡ some i
    → Moves (state_of u d) (state_of u (comment_on env notes command u i p d).database)
unfolding comment_on add_comment log_event record_event get_issue
Moves-comment_on env notes command u i p d found =
    let logged : Database =
      log_event env u _ _ _ (add_comment notes.comment_id env.now u p.body p.author none d).0 in
    Moves-obey env u i logged found (command p.body)

Moves-body :
    (env : Env) (notes : Notes) (command : String → Command) (u : String) (i : Issue)
    (body : Option CommentInput) (d : Database)
    → get_issue u d ≡ some i
    → Moves
        (state_of u d)
        (state_of u (if_valid body (comment_on env notes command u i) d).database)
Moves-body env notes command u i none d found = inl refl
Moves-body env notes command u i (some p) d found = Moves-comment_on env notes command u i p d found

-- A comment on an issue, whatever it says and whichever command is read from it, leaves the state of the issue, or
-- moves it from plan_review to in_progress or planning, or from todo to in_progress.
pub comment_route-Moves :
    (env : Env) (notes : Notes) (command : String → Command) (u : String)
    (body : Option CommentInput) (d : Database)
    → Moves (state_of u d) (state_of u (comment_route env notes command u body d).database)
unfolding comment_route
comment_route-Moves env notes command u body d = elim (Option-cases (get_issue u d)) [
  | inl e ↦ rw (comment_route, if_found, e) (inl refl)
  | inr (i, e) ↦ rw (comment_route, if_found, e) (Moves-body env notes command u i body d e)
]
