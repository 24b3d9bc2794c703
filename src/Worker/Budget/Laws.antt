-- ===== src/Worker/Budget/Laws.antt =====
-- When checkIssueBudget of src/orchestrator/worker.ts finds an excess.
use nano_symphony.Common.{
  ℕ, get_or, ◌+◌, ◌≤◌, String, ◌≡◌, refl, sym, ◌↔◌, Option, none, some, List, [], ◌∷◌, arith, ◌==◌,
  inl, inr, Bool-cases, keep, if◌then◌else◌,
}
use nano_symphony.Tracker.Types.{Issue, LlmCall, Database}
use nano_symphony.Tracker.Issues.{get_issue}
use nano_symphony.Tracker.Events.{get_llm_call_summary, summarise, is_call_of}
use nano_symphony.Worker.Env.{Env}
use nano_symphony.Worker.Budget.{
  Tokens, over, total_tokens, total_cost, check_budgets, check_issue_budget,
}

-- what the calls of the model for one issue add up to
sum_of : (LlmCall → ℕ) → String → List LlmCall → ℕ
sum_of f u [] = 0
sum_of f u (c ∷ cs) = let rest = sum_of f u cs in if c.issue_uuid == u then f c + rest else rest

-- the tokens of the recorded calls of the issue and those of the current attempt, read and written
pub tokens_spent : String → Option Tokens → Database → ℕ
unfolding sum_of
tokens_spent u none d = sum_of (λ c. c.input_tokens + c.output_tokens) u d.llm_calls
tokens_spent u (some t) d =
    sum_of (λ c. c.input_tokens + c.output_tokens) u d.llm_calls + (t.input + t.output)

-- the costs of the recorded calls of the issue and that of the current attempt
pub cost_spent : String → Option ℕ → Database → ℕ
unfolding sum_of
cost_spent u none d = sum_of (λ c. get_or c.cost_usd 0) u d.llm_calls
cost_spent u (some cost) d = sum_of (λ c. get_or c.cost_usd 0) u d.llm_calls + cost

sum_tokens :
    (u : String) (cs : List LlmCall)
    → let s = summarise (keep (is_call_of u) cs) in
      sum_of (λ c. c.input_tokens + c.output_tokens) u cs ≡ s.input_tokens + s.output_tokens
unfolding sum_of summarise
sum_tokens u [] = refl
sum_tokens u (c ∷ cs) = elim (Bool-cases (c.issue_uuid == u)) [
  | inl e ↦ rw e (omega (arith, sum_tokens u cs))
  | inr e ↦ rw e (sum_tokens u cs)
]

sum_costs :
    (u : String) (cs : List LlmCall)
    → sum_of (λ c. get_or c.cost_usd 0) u cs ≡ (summarise (keep (is_call_of u) cs)).cost_usd
unfolding sum_of summarise
sum_costs u [] = refl
sum_costs u (c ∷ cs) = elim (Bool-cases (c.issue_uuid == u)) [
  | inl e ↦ rw e (omega (arith, sum_costs u cs))
  | inr e ↦ rw e (sum_costs u cs)
]

total_tokens-spent :
    (u : String) (t : Option Tokens) (d : Database)
    → total_tokens (get_llm_call_summary u d) t ≡ tokens_spent u t d
unfolding tokens_spent get_llm_call_summary
total_tokens-spent u none d = omega (arith, sum_tokens u d.llm_calls)
total_tokens-spent u (some t) d = omega (arith, sum_tokens u d.llm_calls)

total_cost-spent :
    (u : String) (cost : Option ℕ) (d : Database)
    → total_cost (get_llm_call_summary u d) cost ≡ cost_spent u cost d
unfolding cost_spent get_llm_call_summary
total_cost-spent u none d = omega (arith, sum_costs u d.llm_calls)
total_cost-spent u (some cost) d = omega (arith, sum_costs u d.llm_calls)

-- A total keeps to a budget that may be missing.
abbrev pub Within : ℕ → Option ℕ → Type 0
Within total none = Unit
Within total (some budget) = total ≤ budget

over-none : (total : ℕ) (budget : Option ℕ) → (over total budget ≡ none) ↔ Within total budget
over-none total none = (λ e. tt, λ h. refl)
over-none total (some budget) = (λ e. ground arith, λ h. ground arith)

check_budgets-none :
    (env : Env) (issue : Issue) (s : nano_symphony.Tracker.Events.LlmCallSummary)
    (t : Option Tokens) (cost : Option ℕ)
    → (check_budgets env issue s t cost ≡ none) ↔ (
        (over (total_tokens s t) issue.token_budget ≡ none)
        × (over (total_cost s cost) issue.cost_budget_usd ≡ none))
unfolding check_budgets
check_budgets-none env issue s t cost = (λ h. (ground arith, ground arith), λ h. ground arith)

-- For an issue of the table, the check passes exactly when the tokens of all its recorded calls and of the current
-- attempt are together at most its token budget, and their costs at most its cost budget; a budget that it
-- does not have is kept.
pub check_issue_budget-none_iff :
    (env : Env) (u : String) (t : Option Tokens) (cost : Option ℕ) (d : Database) (issue : Issue)
    → get_issue u d ≡ some issue
    → (check_issue_budget env u t cost d ≡ none) ↔ (
        Within (tokens_spent u t d) issue.token_budget
        × Within (cost_spent u cost d) issue.cost_budget_usd)
unfolding check_issue_budget
check_issue_budget-none_iff env u t cost d issue found =
    let s = get_llm_call_summary u d in
    let (to, from) = check_budgets-none env issue s t cost in
    let (tok, tok') = over-none (total_tokens s t) issue.token_budget in
    let (usd, usd') = over-none (total_cost s cost) issue.cost_budget_usd in
    rw (sym (total_tokens-spent u t d), sym (total_cost-spent u cost d), found, check_issue_budget)
      (λ h. (tok (to h).0, usd (to h).1), λ h. from (tok' h.0, usd' h.1))
