-- ===== src/Tests/Working.antt =====
-- The worker at concrete attempts.
use nano_symphony.Common.{
  ℕ, String, ◌≡◌, refl, ap, ◌≢◌, ◌⊎◌, ◌↔◌, true, false, Option, none, some, List, [], ◌∷◌, ◌++◌,
  arith, get_or, length, All, find_row, update_rows, concat, show_nat, sort_by,
}
use nano_symphony.Tracker.Types.{Issue, Run, Event, LlmCall, Database}
use nano_symphony.Tracker.Issues.{get_issue}
use nano_symphony.Tracker.Issues.Candidates.{is_candidate, run_allows}
use nano_symphony.Tracker.Runs.{get_run}
use nano_symphony.Worker.Completion.{derive_completion, was_killed, Payload, SpawnResult}
use nano_symphony.Worker.Completion.Laws.{derive_completion-success}
use nano_symphony.Worker.Breaker.{
  is_circuit_breaker_open, is_retry, consecutive_failures, leading_retries,
}
use nano_symphony.Worker.Breaker.Laws.{is_circuit_breaker_open_iff}
use nano_symphony.Worker.Budget.{Tokens, check_issue_budget, Excess}
use nano_symphony.Worker.Budget.Laws.{check_issue_budget-none_iff, Within, tokens_spent, cost_spent}
use nano_symphony.Tracker.Events.{get_llm_call_summary, get_events_by_kind}
use nano_symphony.Worker.Settle.{settle, fallback_state, default_transitions}
use nano_symphony.Worker.Settle.Guards.{issue_state, given_back}
use nano_symphony.Json.{str, whole, object}
use nano_symphony.Worker.Settle.Verdict.{text_ne}
use nano_symphony.Worker.Settle.Rest.{settle_rests}
use nano_symphony.Worker.Settle.Run.{Ending}
use nano_symphony.Worker.Settle.Exhausted.{settle_exhausted}
use nano_symphony.Worker.Attempt.{
  finish_attempt, is_tripped, final_tokens, cost_of, is_handed_to_plan, hear,
}
use nano_symphony.Worker.Attempt.Run.{finish_attempt_run, decision}
use nano_symphony.Worker.Attempt.Limit.{finish_attempt_over_budget}
use nano_symphony.Worker.Attempt.Plan.{finish_attempt_handed_over}
use nano_symphony.Tests.Samples.{
  sample_env, sample_policy, sample_payload, issue_of, run_of, tables, busy, report, exited,
  succeeded, silent, same_text,
}

derive_completion-success_example :
    ((derive_completion same_text (some (exited 0)) (some sample_payload)).semantics ≡ "success")
    ↔ ((was_killed (some (exited 0)) ≡ false)
        × ((x : Payload) × (some sample_payload ≡ some x) × (x.status ≡ "success"))
        × ((x : SpawnResult)
            → some (exited 0) ≡ some x
            → (x.exit_code ≡ none) ⊎ (x.exit_code ≡ some 0)))
derive_completion-success_example =
    derive_completion-success same_text (some (exited 0)) (some sample_payload)

-- a success that exited with a code is to be tried again
exit_code_beats_success :
    (derive_completion same_text (some (exited 1)) (some sample_payload)).semantics ≡ "needs_retry"
unfolding derive_completion
exit_code_beats_success = refl

-- a session that needs a retry
abbrev failing : String → Event
failing id = record {
  id = id;
  issue_uuid = "a";
  ts = 10;
  kind = "session_completed";
  message = "";
  payload_json = some (object (("semantics", str "needs_retry") ∷ []));
}

abbrev tripping : Database
tripping = record busy { events = failing "1" ∷ failing "2" ∷ [] }

tripping_open : is_circuit_breaker_open "a" 2 tripping ≡ true
unfolding is_circuit_breaker_open consecutive_failures leading_retries get_events_by_kind sort_by
tripping_open = refl

is_circuit_breaker_open_iff_example : (is_circuit_breaker_open "a" 2 tripping ≡ true) ↔ (
    (newest : List Event) × (older : List Event) × (mathlib.Core.List.reverse
        (get_events_by_kind "a" "session_completed" tripping)
      ≡ newest ++ older)
    × (length newest ≡ 2)
    × All (λ e. is_retry e ≡ true) newest)
is_circuit_breaker_open_iff_example = is_circuit_breaker_open_iff "a" 2 tripping (omega arith)

abbrev budgeted : Issue
budgeted = record (issue_of "a" "todo" "high") { token_budget = some 40 }

abbrev limited : Database
limited = tables (budgeted ∷ []) (run_of "a" "claimed" "" ∷ [])

abbrev call_of : String → ℕ → LlmCall
call_of u tokens = record {
  id = "c";
  issue_uuid = u;
  attempt = 0;
  provider = none;
  model = none;
  input_tokens = tokens;
  output_tokens = 5;
  cost_usd = some 3;
  duration_ms = none;
  duration_api_ms = none;
  created_at = 10;
}

-- a call for the issue, and one for another issue
abbrev metered : Database
metered = record limited { llm_calls = call_of "a" 20 ∷ call_of "b" 90 ∷ [] }

abbrev eleven : Tokens
eleven = record { input = 7; output = 4; total = 11 }

check_issue_budget-none_iff_example :
    (check_issue_budget sample_env "a" (some eleven) (some 2) metered ≡ none) ↔ (
      Within (tokens_spent "a" (some eleven) metered) (some 40)
      × Within (cost_spent "a" (some 2) metered) none)
unfolding get_issue find_row
check_issue_budget-none_iff_example =
    check_issue_budget-none_iff sample_env "a" (some eleven) (some 2) metered budgeted refl

-- the moved issue
abbrev done_issue : Issue
done_issue = record (issue_of "a" "done" "high") { updated_at = 1000 }

settle_rests_example :
    let d' =
      (settle sample_env sample_policy "a" 0
        (issue_of "a" "todo" "high")
        (report "success")
        (some "done")
        false
        busy).1 in
    (done_issue.state ≡ "done")
    × ((y : Run) × (get_run "a" d' ≡ some y) × (y.last_issue_state ≡ "done"))
    × (is_candidate 9999 d' done_issue ≡ false)
unfolding get_issue get_run settle find_row nano_symphony.Worker.Settle.finish_success
    nano_symphony.Worker.Env.log_event nano_symphony.Tracker.Events.record_event
    nano_symphony.Tracker.Runs.update_last_issue_state nano_symphony.Tracker.Runs.release_issue
    nano_symphony.Tracker.Issues.update_last_blocker_fingerprint update_rows
    nano_symphony.Worker.Settle.move_to_target nano_symphony.Tracker.Issues.update_issue_state
settle_rests_example =
    settle_rests sample_env sample_policy "a" 0 (issue_of "a" "todo" "high") (report "success")
      (some "done") busy (run_of "a" "claimed" "") (text_ne "success" "needs_retry" refl) refl refl
      (text_ne "todo" "" refl) some_ne 9999 done_issue refl
  where
    some_ne : ◌≢◌ {A = Option String} (some "done") (some "")
    some_ne e = text_ne "done" "" refl (ap (λ o. get_or o "done") e)

settle_exhausted_example :
    let d' =
      (settle sample_env sample_policy "a" 3
        (issue_of "a" "todo" "high")
        (report "needs_retry")
        none
        false
        busy).1 in
    (issue_state "a" d' ≡ some "cancelled")
    × (get_run "a" d' ≡ some (given_back "released" "todo" (run_of "a" "claimed" "")))
    × ((now : ℕ) → run_allows now "cancelled" (get_run "a" d') ≡ true)
unfolding get_issue get_run find_row
settle_exhausted_example =
    settle_exhausted sample_env sample_policy "a" 3 (issue_of "a" "todo" "high")
      (report "needs_retry") busy (run_of "a" "claimed" "") refl (omega arith) refl refl
      (text_ne "todo" "cancelled" refl)

finish_attempt_run_example :
    let (c, d2) =
      decision sample_env sample_policy same_text "a" 0 (issue_of "a" "todo" "high") silent busy in
    let (final, d') =
      finish_attempt sample_env sample_policy same_text "a" 0
        (issue_of "a" "todo" "high")
        silent
        busy in
    (y : Run) × (get_run "a" d' ≡ some y)
    × Ending sample_env sample_policy "a" 0
        (issue_of "a" "todo" "high")
        c.report
        c.target
        (is_tripped sample_env "a" 0 5 c d2)
        y
unfolding get_run find_row
finish_attempt_run_example =
    finish_attempt_run sample_env sample_policy same_text "a" 0 (issue_of "a" "todo" "high") silent
      busy (run_of "a" "claimed" "") refl

abbrev overrun : Excess
overrun = record {
  reason = "Tokens 50 exceed budget 40";
  fingerprint = "budget_exceeded:tokens";
  details = some (
      object (
        ("input_tokens", whole 30)
        ∷ ("output_tokens", whole 20)
        ∷ ("token_budget", whole 40)
        ∷ ("total_tokens", whole 50)
        ∷ ("reason", str "Tokens 50 exceed budget 40")
        ∷ []));
}

found :
    check_issue_budget sample_env "a"
      (final_tokens succeeded.payload succeeded.counted)
      (cost_of succeeded.payload)
      limited
    ≡ some overrun
unfolding check_issue_budget get_issue final_tokens get_llm_call_summary find_row
    nano_symphony.Worker.Budget.check_budgets nano_symphony.Tracker.Events.summarise concat show_nat
found = refl

finish_attempt_over_budget_example :
    let final =
      (finish_attempt sample_env sample_policy same_text "a" 0 budgeted succeeded limited).0 in
    (final.semantics ≡ "abandoned") × (final.target_state ≡ "cancelled")
finish_attempt_over_budget_example =
    finish_attempt_over_budget sample_env sample_policy same_text "a" 0 budgeted succeeded limited
      overrun refl found

abbrev handed : Issue
handed = record (issue_of "a" "awaiting_plan" "high") { plan_run_id = some "p" }

abbrev handed_tables : Database
handed_tables = tables (handed ∷ []) (run_of "a" "claimed" "" ∷ [])

finish_attempt_handed_over_example :
    let (final, d') =
      finish_attempt sample_env sample_policy same_text "a" 0
        (issue_of "a" "todo" "high")
        silent
        handed_tables in
    (final.semantics ≡ "handoff")
    × (issue_state "a" d' ≡ some "awaiting_plan")
    × ((y : Run) × (get_run "a" d' ≡ some y) × (y.last_state ≡ "awaiting_plan"))
unfolding get_issue get_run hear is_handed_to_plan check_issue_budget find_row
    nano_symphony.Worker.Budget.check_budgets nano_symphony.Worker.Override.apply_emitted
    nano_symphony.Worker.Override.apply_session
    nano_symphony.Tracker.Events.get_latest_event_by_kind nano_symphony.Tracker.Events.latest_from
    nano_symphony.Worker.Override.report_of derive_completion
finish_attempt_handed_over_example =
    finish_attempt_handed_over sample_env sample_policy same_text "a" 0 (issue_of "a" "todo" "high")
      silent handed_tables handed (run_of "a" "claimed" "") refl refl refl refl
