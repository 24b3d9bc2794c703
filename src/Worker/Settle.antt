-- ===== src/Worker/Settle.antt =====
-- The next state of the issue and of its run: the rest of runWorker in src/orchestrator/worker.ts, with
-- the state_transitions of src/workflow/types.ts. `issue` is the row as the worker read it at its start.
pub mod Guards
pub mod Verdict
pub mod Run
pub mod Rest
pub mod Exhausted
use nano_symphony.Common.{
  ℕ, ◌+◌, max, String, Bool, ◌&&◌, not, Option, none, some, [], ◌∷◌, ◌==◌, ltb, leb, if◌then◌else◌,
  get_or, or_else, is_some, is_text, concat, show_nat,
}
use nano_symphony.Json.{str, whole, object}
use nano_symphony.Tracker.Types.{Issue, Database}
use nano_symphony.Tracker.Issues.{
  update_issue_state, update_last_blocker_fingerprint, get_last_blocker_fingerprint,
}
use nano_symphony.Tracker.Runs.{release_issue, update_last_issue_state, schedule_retry}
use nano_symphony.Backoff.{calculate_backoff}
use nano_symphony.Worker.Env.{Env, log_event}
use nano_symphony.Worker.Completion.{truthy}
use nano_symphony.Worker.Override.{Report}

-- `state_transitions`, where `null` is `none`
pub record Transitions : Type 0 where
  pub success : Option String
  pub abandoned : Option String
  pub handoff : Option String
  pub needs_retry : Option String
  pub blocked : Option String

-- the defaults of the schema
abbrev pub default_transitions : Transitions
default_transitions = record {
  success = some "done";
  abandoned = some "cancelled";
  handoff = some "in_review";
  needs_retry = none;
  blocked = some "blocked";
}

-- what the settling of an attempt takes from the workflow and the configuration
pub record Policy : Type 0 where
  pub transitions : Transitions
  pub base_delay_ms : ℕ
  pub max_delay_ms : ℕ
  pub max_retries : ℕ
  pub breaker_threshold : ℕ

-- `transitions[semantics] ?? null`
unfoldable pub transition_for : Transitions → String → Option String
transition_for t s =
    if s == "success"
    then t.success
    else if s == "abandoned"
    then t.abandoned
    else if s == "handoff"
    then t.handoff
    else if s == "needs_retry"
    then t.needs_retry
    else if s == "blocked"
    then t.blocked
    else none

-- `transitions.blocked ?? transitions.abandoned ?? "blocked"`
abbrev pub blocked_state : Transitions → String
blocked_state t = get_or (or_else t.blocked t.abandoned) "blocked"

-- `transitions["abandoned"] ?? "cancelled"`
abbrev pub fallback_state : Transitions → String
fallback_state t = get_or t.abandoned "cancelled"

-- the run log's variables
pub record Final : Type 0 where
  pub semantics : String
  pub target_state : String
  pub termination_cause : Option String

-- `if (state !== issue.state) updateIssueState(state)`
abbrev pub move_to : Env → String → Issue → String → Database → Database
move_to env u issue state d =
    if state == issue.state then d else update_issue_state env.now u state d

-- `releaseIssue` then `updateLastIssueState`
abbrev pub give_back : String → String → String → Database → Database
give_back u run_state issue_state d =
    update_last_issue_state u issue_state (release_issue u run_state d)

module _ (env : Env) (policy : Policy) (u : String) (attempt : ℕ) (issue : Issue) where
  unfoldable pub finish_success : Report → String → Database → Final × Database
  finish_success r final_state d = (
    record { semantics = r.semantics; target_state = final_state; termination_cause = none },
    log_event env u "completed" (get_or r.summary "Agent completed successfully")
        (some (object (("target_state", str final_state) ∷ [])))
        (give_back u "released" final_state (update_last_blocker_fingerprint u none d)),
  )

  unfoldable pub finish_handoff : Report → String → Database → Final × Database
  finish_handoff r final_state d = (
    record { semantics = r.semantics; target_state = final_state; termination_cause = none },
    log_event env u "handoff" (get_or r.summary "Agent handed off")
        (some (object (("target_state", str final_state) ∷ [])))
        (give_back u final_state final_state (update_last_blocker_fingerprint u none d)),
  )

  unfoldable pub short_circuit : String → Database → Final × Database
  short_circuit fingerprint d =
      let state = blocked_state policy.transitions in
      (
        record {
          semantics = "abandoned";
          target_state = state;
          termination_cause = some "shortcircuit_same_cause";
        },
        log_event env u "shortcircuit_same_cause"
            (concat (
              "Same blocker repeated across attempts "
              ∷ show_nat attempt
              ∷ " and "
              ∷ show_nat (attempt + 1)
              ∷ ": "
              ∷ fingerprint
              ∷ []))
            (some (
              object (
                ("fingerprint", str fingerprint)
                ∷ ("attempt", whole attempt)
                ∷ ("prev_attempt", whole attempt)
                ∷ [])))
            (give_back u "released" state (move_to env u issue state d)),
      )

  -- Persist the fingerprint only if there is one.
  keep_fingerprint : Option String → Database → Database
  keep_fingerprint none d = d
  keep_fingerprint (some f) d = update_last_blocker_fingerprint u (some f) d

  abbrev pub delay : ℕ
  delay = calculate_backoff env.doubles env.random attempt policy.base_delay_ms policy.max_delay_ms

  unfoldable pub plan_retry : Report → Option String → Database → Final × Database
  unfolding keep_fingerprint
  plan_retry r fingerprint d = (
    record { semantics = r.semantics; target_state = issue.state; termination_cause = none },
    log_event env u "retry_scheduled" (concat ("Retry scheduled in " ∷ show_nat delay ∷ "ms" ∷ []))
        (some (object (("delay", whole delay) ∷ ("attempt", whole (attempt + 1)) ∷ [])))
        (schedule_retry u (env.now + delay) (attempt + 1) (keep_fingerprint fingerprint d)),
  )

  -- the fingerprint where it repeats the last one after the first attempt
  abbrev pub repeated : Option String → Option String → Option String
  repeated none last = none
  repeated (some f) last = if is_text last f && leb 1 attempt then some f else none

  unfoldable pub retry_or_block : Report → Database → Final × Database
  retry_or_block r d =
      let current = truthy r.fingerprint in
      elim (repeated current (get_last_blocker_fingerprint u d)) [
        | some f ↦ short_circuit f d
        | none ↦ plan_retry r current d
      ]

  unfoldable pub trip : Database → Final × Database
  trip d =
      let state = blocked_state policy.transitions in
      (
        record {
          semantics = "abandoned";
          target_state = state;
          termination_cause = some "circuit_breaker";
        },
        log_event env u "circuit_breaker_opened" "Circuit breaker opened after repeated failures"
            (some (
              object
                (("target_state", str state) ∷ ("threshold", whole policy.breaker_threshold) ∷ [])))
            (give_back u "released" state (move_to env u issue state d)),
      )

  unfoldable pub abandon : Report → String → Database → Final × Database
  abandon r final_state d = (
    record { semantics = r.semantics; target_state = final_state; termination_cause = none },
    log_event env u "abandoned" (get_or r.summary "Agent abandoned or max retries exceeded")
        (some (object (("target_state", str final_state) ∷ [])))
        (give_back u "released" final_state d),
  )

  -- `!targetState && semantics === "needs_retry"`
  unfoldable pub fall_back : Report → Option String → Database → Database
  fall_back r target d =
      if not (is_some (truthy target)) && r.semantics == "needs_retry"
      then move_to env u issue (fallback_state policy.transitions) d
      else d

  -- `if (targetState && targetState !== issue.state) updateIssueState(targetState)`
  unfoldable pub move_to_target : Option String → Database → Database
  move_to_target target d = elim (truthy target) [ none ↦ d | some s ↦ move_to env u issue s d ]

  -- The writes of the transaction. The final state is read off before the fallback is chosen.
  unfoldable pub settle : Report → Option String → Bool → Database → Final × Database
  settle r target tripped d0 =
      let d = move_to_target target d0 in
      let final_state = get_or target issue.state in
      if r.semantics == "success"
      then finish_success r final_state d
      else if r.semantics == "handoff"
      then finish_handoff r final_state d
      else if (r.semantics == "needs_retry" && not tripped) && ltb attempt policy.max_retries
      then retry_or_block r d
      else if tripped
      then trip (fall_back r target d)
      else abandon r final_state (fall_back r target d)
