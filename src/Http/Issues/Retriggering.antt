-- ===== src/Http/Issues/Retriggering.antt =====
-- POST /issues/:uuid/retrigger of src/http/routes/issues.ts and the query for candidates.
use nano_symphony.Common.{
  ℕ, String, ◌≡◌, refl, sym, ap, ◌∙◌, subst, inl, inr, Bool, true, false, ◌||◌, Option, none, some,
  List, [], ◌∷◌, ◌==◌, eq_iff, eq_refl, Bool-cases, get_or, any, find_row, update_rows,
  key-find_row,
}
use mathlib.Core.Option
use nano_symphony.Tracker.Types.{Issue, Run, Blocker, Database, issue_key, run_key}
use nano_symphony.Tracker.Issues.{
  get_issue, set_issue, update_issue_state, update_last_blocker_fingerprint, blocker_key,
}
use nano_symphony.Tracker.Issues.Candidates.{is_candidate, is_open_state, run_allows, blocks}
use nano_symphony.Tracker.Runs.{get_run, set_run, release_issue, update_last_issue_state}
use nano_symphony.Tracker.Runs.Laws.{get_run-release_issue, get_run-update_last_issue_state}
use nano_symphony.Tracker.Events.{record_event}
use nano_symphony.Tracker.Comments.{add_comment}
use nano_symphony.Tracker.Isolation.{differ}
use nano_symphony.Worker.Env.{Env, log_event}
use nano_symphony.Mcp.Tools.Cases.{if_case}
use nano_symphony.Mcp.Tools.States.{state_of, state_of-set_issue, state_of-update_issue_state}
use nano_symphony.Http.Issues.{if_found}
use nano_symphony.Http.Issues.Plans.{release_found, release_for_reschedule}
use nano_symphony.Http.Issues.Laws.{NoSelfBlock}
use nano_symphony.Http.Issues.Retrigger.{
  Notes, Retrigger, attach_note, retarget, reset_fingerprint, retrigger, retrigger_route,
}

or_left : (a b : Bool) → (a || b) ≡ false → a ≡ false
or_left true b h = h
or_left false b h = refl

or_right : (a b : Bool) → (a || b) ≡ false → b ≡ false
or_right true b h = cc
or_right false b h = h

module _ (env : Env) (notes : Notes) (u : String) where
  -- a note touches no issue, run or blocker
  Quiet : Database → Database → Type 0
  Quiet d x = (x.issues ≡ d.issues) × (x.runs ≡ d.runs) × (x.blockers ≡ d.blockers)

  attach_note-Quiet :
      (note : Option String) (d : Database) → Quiet d (attach_note env notes u note d)
  unfolding Quiet attach_note log_event record_event add_comment
  attach_note-Quiet none d = (refl, refl, refl)
  attach_note-Quiet (some note) d =
      if_case (Quiet d) (notes.is_blank note) (λ _. (refl, refl, refl)) (λ _. (refl, refl, refl))

  state_of-retarget :
      (from target : String) (d : Database)
      → state_of u d ≡ some from
      → state_of u (retarget env u from target d) ≡ some target
  unfolding retarget find_row
  state_of-retarget from target d h = elim (Bool-cases (from == target)) [
    | inl e ↦ rw (retarget, e) (h ∙ ap some ((eq_iff from target).0 e))
    | inr e ↦
        rw (retarget, e)
          (state_of-update_issue_state u env.now target d ∙ ap (λ o. Option.map (λ _. target) o) h)
  ]

  any-followed :
      (t : String) (bs : List Blocker)
      → NoSelfBlock bs
      → any (blocks u) bs ≡ false
      → any (blocks u) (update_rows blocker_key u (λ b. record b { blocker_state = t }) bs) ≡ false
  unfolding update_rows
  any-followed t [] h k = refl
  any-followed t (b ∷ bs) h k =
      let rest = any-followed t bs h.1 (or_right (blocks u b) _ k) in
      elim (Bool-cases (b.blocker_uuid == u)) [
        | inl e ↦
            let other : (b.issue_uuid == u) ≡ false =
              differ b.issue_uuid u (λ x. h.0 ((eq_iff b.blocker_uuid u).0 e ∙ sym x)) in
            rw (e, other) rest
        | inr e ↦ rw (e, or_left (blocks u b) _ k) rest
      ]

  blockers-retarget :
      (from target : String) (d : Database)
      → NoSelfBlock d.blockers
      → any (blocks u) d.blockers ≡ false
      → any (blocks u) (retarget env u from target d).blockers ≡ false
  unfolding retarget update_issue_state set_issue
  blockers-retarget from target d h k =
      if_case (λ (x : Database). any (blocks u) x.blockers ≡ false) (from == target) (λ _. k)
        (λ _. any-followed target d.blockers h k)

  -- no run, or one that is noted for no state
  Cleared : Option Run → Type 0
  Cleared none = Unit
  Cleared (some y) = y.last_issue_state ≡ ""

  run_allows-release :
      (now : ℕ) (t : String) (x : Database) (o : Option Run)
      → get_run u x ≡ o
      → Cleared o
      → run_allows now t (get_run u (release_found u o x)) ≡ true
  unfolding run_allows Cleared
  run_allows-release now t x none e c = rw e refl
  run_allows-release now t x (some y) e c = elim (Bool-cases (y.last_state == "released")) [
    | inl s ↦ rw (s, e, c, (eq_iff y.last_state "released").0 s) refl
    | inr s ↦ rw (s, get_run-release_issue u "released" u x, eq_refl u, e, c) refl
  ]

  cleared :
      (o : Option Run) → Cleared (Option.map (λ (r : Run). record r { last_issue_state = "" }) o)
  unfolding Cleared
  cleared none = tt
  cleared (some y) = refl

  run_allows-released :
      (now : ℕ) (t : String) (d : Database)
      → run_allows now t (get_run u (release_for_reschedule u (update_last_issue_state u "" d)))
        ≡ true
  unfolding release_for_reschedule
  run_allows-released now t d =
      let x = update_last_issue_state u "" d in
      let e : get_run u x
          ≡ Option.map (λ (r : Run). record r { last_issue_state = "" }) (get_run u d) =
        get_run-update_last_issue_state u "" u d ∙ rw (eq_refl u) refl in
      run_allows-release now t x (get_run u x) refl (subst Cleared (sym e) (cleared (get_run u d)))

  rest-release_found :
      (o : Option Run) (x : Database)
      → ((release_found u o x).issues ≡ x.issues) × ((release_found u o x).blockers ≡ x.blockers)
  unfolding release_issue set_run
  rest-release_found none x = (refl, refl)
  rest-release_found (some y) x =
      if_case (λ (z : Database). (z.issues ≡ x.issues) × (z.blockers ≡ x.blockers))
        (y.last_state == "released") (λ _. (refl, refl)) (λ _. (refl, refl))

  -- the release writes runs only
  rest-release :
      (d : Database)
      → let x = release_for_reschedule u (update_last_issue_state u "" d) in
        (x.issues ≡ d.issues) × (x.blockers ≡ d.blockers)
  unfolding release_for_reschedule update_last_issue_state set_run
  rest-release d =
      rest-release_found (get_run u (update_last_issue_state u "" d))
        (update_last_issue_state u "" d)

  -- the reset and the event leave runs, blockers and states
  state_of-reset :
      (reset : Bool) (x : Database) → state_of u (reset_fingerprint u reset x) ≡ state_of u x
  unfolding reset_fingerprint update_last_blocker_fingerprint
  state_of-reset true x =
      state_of-set_issue u (λ i. record i { last_blocker_fingerprint = none }) x (λ i. refl)
        (λ i. refl)
  state_of-reset false x = refl

  rest-reset :
      (reset : Bool) (x : Database)
      → ((reset_fingerprint u reset x).runs ≡ x.runs)
        × ((reset_fingerprint u reset x).blockers ≡ x.blockers)
  unfolding reset_fingerprint update_last_blocker_fingerprint set_issue
  rest-reset true x = (refl, refl)
  rest-reset false x = (refl, refl)

  module _ (p : Retrigger) (i : Issue) (d : Database) where
    moved : Database
    moved = retarget env u i.state p.target_state (attach_note env notes u p.note d)

    rested : Database
    rested =
        reset_fingerprint u p.reset_blocker_fingerprint
          (release_for_reschedule u (update_last_issue_state u "" moved))

    state_of-rested : get_issue u d ≡ some i → state_of u rested ≡ some p.target_state
    unfolding moved rested get_issue Quiet
    state_of-rested found =
        let quiet = attach_note-Quiet p.note d in
        let noted : state_of u (attach_note env notes u p.note d) ≡ some i.state =
          ap (λ is. Option.map (λ x. x.state) (find_row issue_key u is)) quiet.0
          ∙ ap (λ o. Option.map (λ x. x.state) o) found in
        state_of-reset p.reset_blocker_fingerprint _
        ∙ (ap (λ is. Option.map (λ x. x.state) (find_row issue_key u is)) (rest-release moved).0
            ∙ state_of-retarget i.state p.target_state _ noted)

    run_allows-rested : (now : ℕ) (t : String) → run_allows now t (get_run u rested) ≡ true
    unfolding moved rested get_run
    run_allows-rested now t =
        ap (λ rs. run_allows now t (find_row run_key u rs))
          (rest-reset p.reset_blocker_fingerprint _).0
        ∙ run_allows-released now t moved

    blockers-rested :
        NoSelfBlock d.blockers
        → any (blocks u) d.blockers ≡ false
        → any (blocks u) rested.blockers ≡ false
    unfolding moved rested Quiet
    blockers-rested h k =
        let quiet = (attach_note-Quiet p.note d).2 in
        ap (λ bs. any (blocks u) bs) (rest-reset p.reset_blocker_fingerprint _).1
        ∙ (ap (λ bs. any (blocks u) bs) (rest-release moved).1
            ∙ blockers-retarget i.state p.target_state (attach_note env notes u p.note d)
                (subst NoSelfBlock (sym quiet) h) (ap (λ bs. any (blocks u) bs) quiet ∙ k))

    retrigger-is_candidate :
        get_issue u d ≡ some i
        → is_open_state p.target_state ≡ true
        → NoSelfBlock d.blockers
        → any (blocks u) d.blockers ≡ false
        → let d' = retrigger env notes u p i d in
          (state_of u d' ≡ some p.target_state)
          × ((now : ℕ) (i' : Issue) → get_issue u d' ≡ some i' → is_candidate now d' i' ≡ true)
    unfolding retrigger rested moved log_event record_event is_candidate get_issue get_run
    retrigger-is_candidate found opens no_self no_open = (
      state_of-rested found,
      λ now i' here.
          let own = key-find_row issue_key u rested.issues i' here in
          let state : i'.state ≡ p.target_state =
            ap (λ o. get_or o "")
              (sym (ap (λ o. Option.map (λ x. x.state) o) here) ∙ state_of-rested found) in
          rw
            (
              own,
              state,
              opens,
              run_allows-rested now p.target_state,
              blockers-rested no_self no_open,
            )
            refl,
    )

-- An issue that is there, has no open blocker and does not block itself, is retriggered to a state that is open: whatever
-- its state and its run were, it is in that state and the next query takes it as a candidate.
pub retrigger_route-is_candidate :
    (env : Env) (notes : Notes) (u : String) (p : Retrigger) (i : Issue) (d : Database)
    → get_issue u d ≡ some i
    → is_open_state p.target_state ≡ true
    → NoSelfBlock d.blockers
    → any (blocks u) d.blockers ≡ false
    → let d' = (retrigger_route env notes u (some p) d).database in
      (state_of u d' ≡ some p.target_state)
      × ((now : ℕ) (i' : Issue) → get_issue u d' ≡ some i' → is_candidate now d' i' ≡ true)
unfolding retrigger_route
retrigger_route-is_candidate env notes u p i d found opens no_self no_open =
    rw (retrigger_route, if_found, found)
      (retrigger-is_candidate env notes u p i d found opens no_self no_open)
