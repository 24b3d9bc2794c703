-- ===== src/Worker/Budget.antt =====
-- Budgets of an issue: checkIssueBudget and enforceBudgetIfNeeded of src/orchestrator/worker.ts. Costs are
-- whole numbers of a small unit.
pub mod Laws
use nano_symphony.Common.{
  ℕ, ◌+◌, String, ◌||◌, Option, none, some, [], ◌∷◌, ◌==◌, ltb, if◌then◌else◌, get_or, concat,
  show_nat,
}
use nano_symphony.Json.{Json, str, whole, object}
use nano_symphony.Tracker.Types.{Issue, Database}
use nano_symphony.Tracker.Issues.{get_issue, update_issue_state}
use nano_symphony.Tracker.Runs.{update_last_issue_state}
use nano_symphony.Tracker.Events.{LlmCallSummary, get_llm_call_summary}
use nano_symphony.Worker.Env.{Env, log_event}

pub record Tokens : Type 0 where
  pub input : ℕ
  pub output : ℕ
  pub total : ℕ

-- an excess; the code's `exceeded: false` is `none`
pub record Excess : Type 0 where
  pub reason : String
  pub fingerprint : String
  pub details : Option Json

abbrev pub input_of : Option Tokens → ℕ
input_of none = 0
input_of (some t) = t.input

abbrev pub output_of : Option Tokens → ℕ
output_of none = 0
output_of (some t) = t.output

abbrev pub over : ℕ → Option ℕ → Option ℕ
over total none = none
over total (some budget) = if ltb budget total then some budget else none

tokens_excess : LlmCallSummary → Option Tokens → ℕ → ℕ → Excess
tokens_excess s t total budget =
    let reason = concat ("Tokens " ∷ show_nat total ∷ " exceed budget " ∷ show_nat budget ∷ []) in
    record {
      reason = reason;
      fingerprint = "budget_exceeded:tokens";
      details = some (
          object (
            ("input_tokens", whole (s.input_tokens + input_of t))
            ∷ ("output_tokens", whole (s.output_tokens + output_of t))
            ∷ ("token_budget", whole budget)
            ∷ ("total_tokens", whole total)
            ∷ ("reason", str reason)
            ∷ []));
    }

cost_excess : Env → ℕ → ℕ → Excess
cost_excess env total budget =
    let reason =
      concat ("Cost $" ∷ env.show_usd total ∷ " exceeds budget $" ∷ env.show_usd budget ∷ []) in
    record {
      reason = reason;
      fingerprint = "budget_exceeded:cost";
      details = some (
          object (
            ("cost_usd", whole total)
            ∷ ("cost_budget_usd", whole budget)
            ∷ ("reason", str reason)
            ∷ []));
    }

abbrev pub total_tokens : LlmCallSummary → Option Tokens → ℕ
total_tokens s t = s.input_tokens + s.output_tokens + input_of t + output_of t

abbrev pub total_cost : LlmCallSummary → Option ℕ → ℕ
total_cost s cost = s.cost_usd + get_or cost 0

unfoldable pub check_budgets :
    Env → Issue → LlmCallSummary → Option Tokens → Option ℕ → Option Excess
unfolding tokens_excess cost_excess
check_budgets env issue s t cost = elim (over (total_tokens s t) issue.token_budget) [
  | some budget ↦ some (tokens_excess s t (total_tokens s t) budget)
  | none ↦ elim (over (total_cost s cost) issue.cost_budget_usd) [
    | some budget ↦ some (cost_excess env (total_cost s cost) budget)
    | none ↦ none
  ]
]

unfoldable pub check_issue_budget :
    Env → String → Option Tokens → Option ℕ → Database → Option Excess
check_issue_budget env issue_uuid t cost d = elim (get_issue issue_uuid d) [
  | none ↦ none
  | some issue ↦ check_budgets env issue (get_llm_call_summary issue_uuid d) t cost
]

enforce : Env → String → Option Excess → Database → Database
enforce env u none d = d
enforce env u (some x) d =
    log_event env u "budget_exceeded" x.reason x.details
      (update_last_issue_state u "cancelled" (update_issue_state env.now u "cancelled" d))

unfoldable pub enforce_budget_if_needed : Env → String → Database → Database
unfolding enforce
enforce_budget_if_needed env u d = elim (get_issue u d) [
  | none ↦ d
  | some issue ↦
      if issue.state == "done" || issue.state == "cancelled"
      then d
      else enforce env u (check_issue_budget env u none none d) d
]
