-- ===== src/Worker/Attempt/Quiet.antt =====
-- What the steps of runWorker before the settling leave as it was: src/orchestrator/worker.ts.
use mathlib.Core.Option
use nano_symphony.Common.{
  ℕ, String, ◌≡◌, refl, ◌∙◌, inl, inr, Bool, true, false, Option, none, some, List, [], ◌∷◌, ◌==◌,
  if◌then◌else◌, Bool-cases, Option-cases, is_some,
}
use nano_symphony.Json.{Json}
use nano_symphony.Tracker.Types.{Issue, Run, Database}
use nano_symphony.Tracker.Runs.{get_run, update_token_stats, set_run}
use nano_symphony.Tracker.Runs.Laws.{get_run-update_token_stats}
use nano_symphony.Tracker.Events.{record_event, get_latest_event_by_kind}
use nano_symphony.Worker.Env.{Env, log_event}
use nano_symphony.Worker.Completion.{
  Payload, SpawnResult, derive_completion, exit_code_of, failed_code,
}
use nano_symphony.Worker.Budget.{Tokens, check_issue_budget}
use nano_symphony.Worker.Override.{
  Report, apply_session, payload_of, field_text, apply_emitted, note_missing, weigh, rejected,
  report_of,
}
use nano_symphony.Worker.Settle.{Policy, Transitions, transition_for}
use nano_symphony.Worker.Attempt.{
  Decision, Outcome, observe, observe_goal, observe_sandbox, observe_blocked, record_tokens,
  plan_guard, budget_guard, exceeded, hear, decide, plan_handoff,
}

-- The issues and the calls stay, and a run stays, with other counts at most.
abbrev pub IsQuiet : String → Database → Database → Type 0
IsQuiet u d d' =
    (d'.issues ≡ d.issues)
    × (d'.llm_calls ≡ d.llm_calls)
    × (is_some (get_run u d') ≡ is_some (get_run u d))

IsQuiet-refl : (u : String) (d : Database) → IsQuiet u d d
IsQuiet-refl u d = (refl, refl, refl)

IsQuiet-trans : (u : String) (a b c : Database) → IsQuiet u a b → IsQuiet u b c → IsQuiet u a c
IsQuiet-trans u a b c (p, q, r) (p', q', r') = (p' ∙ p, q' ∙ q, r' ∙ r)

IsQuiet-log :
    (w : String) (env : Env) (u k m : String) (p : Option Json) (d : Database)
    → IsQuiet w d (log_event env u k m p d)
unfolding log_event record_event get_run
IsQuiet-log w env u k m p d = (refl, refl, refl)

IsQuiet-split :
    (u : String) (b : Bool) (d d1 d2 : Database)
    → IsQuiet u d d1
    → IsQuiet u d d2
    → IsQuiet u d (if b then d1 else d2)
IsQuiet-split u true d d1 d2 p q = p
IsQuiet-split u false d d1 d2 p q = q

kept :
    (b : Bool) (f : Run → Run) (o o' : Option Run)
    → o' ≡ (if b then Option.map f o else o)
    → is_some o' ≡ is_some o
kept true f none o' e = rw e refl
kept true f (some r) o' e = rw e refl
kept false f o o' e = rw e refl

IsQuiet-pair {ℓ} :
    {A : Type ℓ} (u : String) (b : Bool) (d : Database) (p q : A × Database)
    → IsQuiet u d p.1
    → IsQuiet u d q.1
    → IsQuiet u d (if b then p else q).1
IsQuiet-pair u true d p q a b = a
IsQuiet-pair u false d p q a b = b

module _ (env : Env) (u : String) (attempt : ℕ) where
  IsQuiet-weigh :
      (cause : Option String) (p : Json) (proposed : String) (code : Option ℕ) (r : Report)
      (d : Database)
      → IsQuiet u d (weigh env u attempt cause p proposed code r d).1
  unfolding weigh rejected
  IsQuiet-weigh cause p proposed none r d = IsQuiet-refl u d
  IsQuiet-weigh cause p proposed (some c) r d = elim (Bool-cases (proposed == "success")) [
    | inl e ↦ rw (e, weigh) (IsQuiet-log u env u _ _ _ d)
    | inr e ↦ rw (e, weigh) (IsQuiet-refl u d)
  ]

  IsQuiet-session :
      (code : Option ℕ) (cause : Option String) (r : Report) (d : Database)
      → IsQuiet u d (apply_session env u attempt code cause r d).1
  unfolding apply_session
  IsQuiet-session code cause r d =
      elim (Option-cases (payload_of (get_latest_event_by_kind u "session_completed" d))) [
        | inl e ↦ rw (e, apply_session) (IsQuiet-refl u d)
        | inr (p, e) ↦ elim (Option-cases (field_text "semantics" p)) [
          | inl f ↦ rw (e, f, apply_session) (IsQuiet-refl u d)
          | inr (proposed, f) ↦
              rw (e, f, apply_session) (IsQuiet-weigh cause p proposed (failed_code code) r d)
        ]
      ]

  IsQuiet-emitted :
      (cause : Option String) (r : Report) (d : Database)
      → IsQuiet u d (apply_emitted env u attempt cause r d).1
  unfolding apply_emitted
  IsQuiet-emitted cause r d =
      IsQuiet-pair u _ d _ _ (IsQuiet-log u env u _ _ _ d) (IsQuiet-refl u d)

  IsQuiet-missing :
      (cause : Option String) (r : Report) (d : Database)
      → IsQuiet u d (note_missing env u attempt cause r d)
  unfolding note_missing
  IsQuiet-missing cause r d =
      IsQuiet-split u _ d _ d (IsQuiet-log u env u _ _ _ d) (IsQuiet-refl u d)

  IsQuiet-goal : (p : Option Payload) (d : Database) → IsQuiet u d (observe_goal env u attempt p d)
  unfolding observe_goal
  IsQuiet-goal none d = IsQuiet-refl u d
  IsQuiet-goal (some p) d = elim (Option-cases p.goal_state) [
    | inl e ↦ rw (e, observe_goal) (IsQuiet-refl u d)
    | inr (g, e) ↦ rw (e, observe_goal) (IsQuiet-log u env u _ _ _ d)
  ]

  IsQuiet-sandbox :
      (p : Option Payload) (d : Database) → IsQuiet u d (observe_sandbox env u attempt p d)
  unfolding observe_sandbox
  IsQuiet-sandbox none d = IsQuiet-refl u d
  IsQuiet-sandbox (some p) d = elim (Option-cases p.sandbox) [
    | inl e ↦ rw (e, observe_sandbox) (IsQuiet-refl u d)
    | inr (g, e) ↦ rw (e, observe_sandbox) (IsQuiet-log u env u _ _ _ d)
  ]

  IsQuiet-blocked :
      (cs : List String) (d : Database) → IsQuiet u d (observe_blocked env u attempt cs d)
  unfolding observe_blocked
  IsQuiet-blocked [] d = IsQuiet-refl u d
  IsQuiet-blocked (c ∷ cs) d = IsQuiet-log u env u _ _ _ d

  IsQuiet-tokens : (t : Option Tokens) (d : Database) → IsQuiet u d (record_tokens u t d)
  unfolding record_tokens update_token_stats set_run
  IsQuiet-tokens none d = IsQuiet-refl u d
  IsQuiet-tokens (some t) d =
      (refl, refl, kept _ _ _ _ (get_run-update_token_stats u t.input t.output t.total u d))

  IsQuiet-observe :
      (p : Option Payload) (counted : ℕ × ℕ) (d : Database)
      → IsQuiet u d (observe env u attempt p counted d)
  unfolding observe
  IsQuiet-observe p counted d =
      let goal = observe_goal env u attempt p d in
      let counted = record_tokens u _ goal in
      let boxed = observe_sandbox env u attempt p counted in
      IsQuiet-trans u d goal _ (IsQuiet-goal p d) (
        IsQuiet-trans u goal counted _ (IsQuiet-tokens _ goal)
          (IsQuiet-trans u counted boxed _ (IsQuiet-sandbox p counted) (IsQuiet-blocked _ boxed)))

  pub IsQuiet-plan :
      (issue : Issue) (c : Decision) (d : Database)
      → IsQuiet u d (plan_guard env u attempt issue c d).1
  unfolding plan_guard
  IsQuiet-plan issue c d = IsQuiet-pair u _ d _ _ (IsQuiet-log u env u _ _ _ d) (IsQuiet-refl u d)

  pub IsQuiet-budget :
      (t : Transitions) (spawned : Option SpawnResult) (tokens : Option Tokens) (cost : Option ℕ)
      (c : Decision) (d : Database)
      → IsQuiet u d (budget_guard env u attempt t spawned tokens cost c d).1
  unfolding budget_guard exceeded
  IsQuiet-budget t none tokens cost c d = IsQuiet-refl u d
  IsQuiet-budget t (some s) tokens cost c d =
      elim (Option-cases (check_issue_budget env u tokens cost d)) [
        | inl e ↦ rw (e, budget_guard) (IsQuiet-refl u d)
        | inr (x, e) ↦ rw (e, budget_guard) (IsQuiet-log u env u _ _ _ d)
      ]

module _ (env : Env) (policy : Policy) (normalize : String → String) (u : String) (attempt : ℕ)
    (issue : Issue) (o : Outcome) where
  pub IsQuiet-hear : (d : Database) → IsQuiet u d (hear env policy normalize u attempt issue o d).1
  unfolding hear
  IsQuiet-hear d =
      let c = derive_completion normalize o.spawned o.payload in
      let session =
        apply_session env u attempt (exit_code_of o.spawned) c.termination_cause (report_of c) d in
      let emitted = apply_emitted env u attempt c.termination_cause session.0 session.1 in
      let noted = note_missing env u attempt c.termination_cause emitted.0 emitted.1 in
      IsQuiet-trans u d session.1 _
        (IsQuiet-session env u attempt (exit_code_of o.spawned) c.termination_cause (report_of c) d)
        (IsQuiet-trans u session.1 emitted.1 _
          (IsQuiet-emitted env u attempt c.termination_cause session.0 session.1)
          (IsQuiet-trans u emitted.1 noted _
            (IsQuiet-missing env u attempt c.termination_cause emitted.0 emitted.1)
            (IsQuiet-observe env u attempt o.payload o.counted noted)))

  pub IsQuiet-decide :
      (r : Report) (d : Database)
      → IsQuiet u d (decide env policy normalize u attempt issue o r d).1
  unfolding decide
  IsQuiet-decide r d =
      let c0 : Decision = record {
        report = r;
        target = transition_for policy.transitions r.semantics;
      } in
      let c = plan_handoff env u attempt c0 d in
      let guarded = plan_guard env u attempt issue c d in
      IsQuiet-trans u d guarded.1 _ (IsQuiet-plan env u attempt issue c d)
        (IsQuiet-budget env u attempt policy.transitions o.spawned _ _ guarded.0 guarded.1)
