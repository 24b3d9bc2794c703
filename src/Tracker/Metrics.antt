-- ===== src/Tracker/Metrics.antt =====
-- Metrics of settled issues: src/db/tracker-issue-metrics.ts, with the other tables as the `deps` of
-- src/db/tracker.ts.
use nano_symphony.Common.{
  ℕ, suc, ◌+◌, String, Option, none, some, List, [], ◌∷◌, ◌==◌, if◌then◌else◌, get_or, length,
  find_row, sort_by,
}
use nano_symphony.Tracker.Types.{Issue, Run, IssueMetrics, Database}
use nano_symphony.Tracker.Issues.{get_issue}
use nano_symphony.Tracker.Runs.{get_run}
use nano_symphony.Tracker.Events.{get_events_by_kind, get_llm_call_summary}

abbrev final_state_of : Option Issue → String
final_state_of none = "unknown"
final_state_of (some i) = i.state

abbrev attempts_of : Option Run → ℕ
attempts_of none = 0
attempts_of (some r) = get_or r.current_attempt 0

unfoldable pub metrics_of : ℕ → String → Database → IssueMetrics
unfolding get_issue get_run
metrics_of now issue_uuid d =
    let summary = get_llm_call_summary issue_uuid d in
    let state = final_state_of (get_issue issue_uuid d) in
    record {
      issue_uuid = issue_uuid;
      final_state = state;
      attempts = attempts_of (get_run issue_uuid d);
      sessions = length (get_events_by_kind issue_uuid "session_completed" d);
      cost_usd = summary.cost_usd;
      input_tokens = summary.input_tokens;
      output_tokens = summary.output_tokens;
      duration_ms = summary.duration_ms;
      blocked = state == "blocked";
      recorded_at = now;
    }

abbrev pub metrics_key : IssueMetrics → String
metrics_key m = m.issue_uuid

-- INSERT … ON CONFLICT(issue_uuid) DO UPDATE of every other column
unfoldable pub upsert_metrics : IssueMetrics → List IssueMetrics → List IssueMetrics
upsert_metrics m [] = m ∷ []
upsert_metrics m (x ∷ xs) =
    let rest = upsert_metrics m xs in if metrics_key x == metrics_key m then m ∷ xs else x ∷ rest

unfoldable pub record_issue_metrics : ℕ → String → Database → Database × IssueMetrics
unfolding metrics_of upsert_metrics
record_issue_metrics now issue_uuid d =
    let m = metrics_of now issue_uuid d in (record d { metrics = upsert_metrics m d.metrics }, m)

unfoldable pub get_issue_metrics : String → Database → Option IssueMetrics
get_issue_metrics issue_uuid d = find_row metrics_key issue_uuid d.metrics

-- ORDER BY recorded_at DESC, and rows of one time in the reverse order of the table
unfoldable pub list_issue_metrics : Database → List IssueMetrics
list_issue_metrics d = mathlib.Core.List.reverse (sort_by (λ m. m.recorded_at) d.metrics)

pub record MetricsSummary : Type 0 where
  pub total_issues : ℕ
  pub total_cost_usd : ℕ
  pub total_input_tokens : ℕ
  pub total_output_tokens : ℕ
  pub total_duration_ms : ℕ
  pub blocked_count : ℕ

abbrev add_metrics : IssueMetrics → MetricsSummary → MetricsSummary
add_metrics m s = record {
  total_issues = suc s.total_issues;
  total_cost_usd = m.cost_usd + s.total_cost_usd;
  total_input_tokens = m.input_tokens + s.total_input_tokens;
  total_output_tokens = m.output_tokens + s.total_output_tokens;
  total_duration_ms = m.duration_ms + s.total_duration_ms;
  blocked_count = (if m.blocked then 1 else 0) + s.blocked_count;
}

unfoldable pub sum_metrics : List IssueMetrics → MetricsSummary
sum_metrics [] = record {
  total_issues = 0;
  total_cost_usd = 0;
  total_input_tokens = 0;
  total_output_tokens = 0;
  total_duration_ms = 0;
  blocked_count = 0;
}
sum_metrics (m ∷ ms) = add_metrics m (sum_metrics ms)

unfoldable pub get_metrics_summary : Database → MetricsSummary
get_metrics_summary d = sum_metrics d.metrics
