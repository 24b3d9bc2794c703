-- ===== src/Worker/Attempt.antt =====
-- The end of an attempt: runWorker of src/orchestrator/worker.ts from deriveCompletion to the transaction
-- that settles it. `issue` is the row as read at the start, `spawned` what the spawner answered (or `none`
-- where it threw), `payload` its result where that meets the contract, `counted` the tokens counted while
-- it ran.
pub mod Quiet
pub mod Run
pub mod Plan
pub mod Limit
use nano_symphony.Common.{
  ℕ, ◌+◌, String, Bool, false, ◌&&◌, ◌||◌, not, Option, none, some, List, [], ◌∷◌, ◌==◌, ltb,
  if◌then◌else◌, get_or, or_else, is_some, length, take, concat, show_nat,
}
use nano_symphony.Json.{Items, nil, cons, str, whole, arr, get_text, object}
use nano_symphony.Tracker.Types.{Issue, Database}
use nano_symphony.Tracker.Issues.{get_issue}
use nano_symphony.Tracker.Events.{get_latest_event_by_kind}
use nano_symphony.Tracker.Runs.{update_token_stats}
use nano_symphony.Worker.Env.{Env, log_event}
use nano_symphony.Worker.Completion.{Payload, SpawnResult, derive_completion, truthy, exit_code_of}
use nano_symphony.Worker.Breaker.{is_circuit_breaker_open}
use nano_symphony.Worker.Budget.{Tokens, Excess, check_issue_budget}
use nano_symphony.Worker.Override.{Report, report_of, apply_session, apply_emitted, note_missing}
use nano_symphony.Worker.Settle.{Transitions, Policy, Final, transition_for, fallback_state, settle}

-- the variables `semantics`, `summary`, `blockerFingerprint` and `targetState`
pub record Decision : Type 0 where
  pub report : Report
  pub target : Option String

unfoldable pub join : String → List String → String
join sep [] = ""
join sep (x ∷ []) = x
join sep (x ∷ y ∷ xs) = concat (x ∷ sep ∷ join sep (y ∷ xs) ∷ [])

abbrev strings : List String → Items
strings [] = nil
strings (x ∷ xs) = cons (str x) (strings xs)

abbrev pub cost_of : Option Payload → Option ℕ
cost_of none = none
cost_of (some p) = p.cost_usd

-- the counter of the agent, if it gives both numbers
reported_tokens : Option Payload → Option Tokens
reported_tokens none = none
reported_tokens (some p) = elim p.tokens_input [
  | none ↦ none
  | some input ↦ elim p.tokens_output [
    | none ↦ none
    | some output ↦ some (record { input = input; output = output; total = input + output })
  ]
]

-- `finalTokens`: the agent's counter, or else what was counted, if anything was
unfoldable pub final_tokens : Option Payload → ℕ × ℕ → Option Tokens
unfolding reported_tokens
final_tokens p (input, output) = or_else (reported_tokens p) (
    if ltb 0 input || ltb 0 output
    then some (record { input = input; output = output; total = input + output })
    else none)

unfoldable pub record_tokens : String → Option Tokens → Database → Database
record_tokens u none d = d
record_tokens u (some t) d = update_token_stats u t.input t.output t.total d

module _ (env : Env) (u : String) (attempt : ℕ) where
  unfoldable pub observe_goal : Option Payload → Database → Database
  observe_goal none d = d
  observe_goal (some p) d = elim p.goal_state [
    | none ↦ d
    | some g ↦ log_event env u "goal_state_observed" (get_or p.last_reason "(no reason)") (some g) d
  ]

  unfoldable pub observe_sandbox : Option Payload → Database → Database
  observe_sandbox none d = d
  observe_sandbox (some p) d = elim p.sandbox [
    | none ↦ d
    | some s ↦
        log_event env u "sandbox_observed" (get_or (get_text "backend" s) "unknown") (some s) d
  ]

  unfoldable pub observe_blocked : List String → Database → Database
  unfolding join
  observe_blocked [] d = d
  observe_blocked (c ∷ cs) d =
      log_event env u "agent_blocked_commands"
        (concat (
          "Agent blocked on "
          ∷ show_nat (length (c ∷ cs))
          ∷ " command(s): "
          ∷ join ", " (take 3 (c ∷ cs))
          ∷ []))
        (some (object (("commands", arr (strings (c ∷ cs))) ∷ ("attempt", whole attempt) ∷ []))) d

  abbrev commands_of : Option Payload → List String
  commands_of none = []
  commands_of (some p) = p.blocked_commands_sample

  -- the events and token counts of the payload
  unfoldable pub observe : Option Payload → ℕ × ℕ → Database → Database
  unfolding observe_goal observe_sandbox observe_blocked record_tokens join
  observe p counted d =
      observe_blocked (commands_of p)
        (observe_sandbox p (record_tokens u (final_tokens p counted) (observe_goal p d)))

  -- The agent left the issue to a plan run.
  unfoldable pub is_handed_to_plan : Option Issue → String → Bool
  is_handed_to_plan none semantics = false
  is_handed_to_plan (some i) semantics =
      i.state == "awaiting_plan" && is_some (truthy i.plan_run_id) && not (semantics == "success")

  unfoldable pub plan_handoff : Decision → Database → Decision
  plan_handoff c d =
      if is_handed_to_plan (get_issue u d) c.report.semantics
      then record {
        report = record c.report {
          semantics = "handoff";
          summary = some (get_or c.report.summary "Handed off to plan run");
        };
        target = some "awaiting_plan";
      }
      else c

  unfoldable pub no_plan : String
  no_plan = "Issue requires a plan but agent did not spawn one — retrying"

  abbrev requires_plan : Issue → Bool
  requires_plan issue = elim issue.require_plan [ some b ↦ b | none ↦ false ]

  -- A success without the plan that the issue requires is none.
  unfoldable pub plan_guard : Issue → Decision → Database → Decision × Database
  unfolding no_plan
  plan_guard issue c d =
      if requires_plan issue
        && (not (is_some (get_latest_event_by_kind u "plan_run_spawned" d))
            && c.report.semantics == "success")
      then (
        record {
          report = record {
            semantics = "needs_retry";
            summary = some no_plan;
            fingerprint = some "plan_required_no_plan_run_spawned";
          };
          target = none;
        },
        log_event env u "plan_guard" no_plan (some (object (("attempt", whole attempt) ∷ []))) d,
      )
      else (c, d)

  unfoldable pub exceeded : Transitions → Excess → Database → Decision × Database
  exceeded transitions x d = (
    record {
      report = record {
        semantics = "abandoned";
        summary = some x.reason;
        fingerprint = some x.fingerprint;
      };
      target = some (fallback_state transitions);
    },
    log_event env u "budget_exceeded" x.reason x.details d,
  )

  -- The budget counts only where the spawner answered.
  unfoldable pub budget_guard :
      Transitions
      → Option SpawnResult
      → Option Tokens
      → Option ℕ
      → Decision
      → Database
      → Decision × Database
  unfolding exceeded
  budget_guard transitions none tokens cost c d = (c, d)
  budget_guard transitions (some _) tokens cost c d =
      elim (check_issue_budget env u tokens cost d) [
        | none ↦ (c, d)
        | some x ↦ exceeded transitions x d
      ]

  abbrev pub is_tripped : ℕ → Decision → Database → Bool
  is_tripped threshold c d =
      c.report.semantics == "needs_retry" && is_circuit_breaker_open u threshold d

-- what came of the agent's process
pub record Outcome : Type 0 where
  pub spawned : Option SpawnResult
  pub payload : Option Payload
  pub counted : ℕ × ℕ

module _ (env : Env) (policy : Policy) (normalize : String → String) (u : String) (attempt : ℕ)
    (issue : Issue) (o : Outcome) where
  -- what the attempt is taken to report, with the events of getting there
  unfoldable pub hear : Database → Report × Database
  hear d0 =
      let c = derive_completion normalize o.spawned o.payload in
      let (r1, d1) =
        apply_session env u attempt (exit_code_of o.spawned) c.termination_cause (report_of c) d0 in
      let (r2, d2) = apply_emitted env u attempt c.termination_cause r1 d1 in
      (
        r2,
        observe env u attempt o.payload o.counted
            (note_missing env u attempt c.termination_cause r2 d2),
      )

  -- the three guards that can change the report and its target
  unfoldable pub decide : Report → Database → Decision × Database
  decide r d0 =
      let c0 : Decision = record {
        report = r;
        target = transition_for policy.transitions r.semantics;
      } in
      let (c1, d1) = plan_guard env u attempt issue (plan_handoff env u attempt c0 d0) d0 in
      budget_guard env u attempt policy.transitions o.spawned (final_tokens o.payload o.counted)
        (cost_of o.payload) c1 d1

  unfoldable pub finish_attempt : Database → Final × Database
  finish_attempt d0 =
      let (r, d1) = hear d0 in
      let (c, d2) = decide r d1 in
      settle env policy u attempt issue c.report c.target
        (is_tripped env u attempt policy.breaker_threshold c d2) d2
