-- ===== src/Tracker/Results.antt =====
-- Results that agents emit: src/db/tracker-issue-results.ts, one row for each issue, attempt and version.
pub mod Versions
use nano_symphony.Common.{
  ℕ, suc, max, String, Bool, ◌&&◌, ◌||◌, Option, none, some, List, [], ◌∷◌, ◌==◌, ltb, nat_eq,
  if◌then◌else◌, get_or, keep,
}
use nano_symphony.Json.{Json}
use nano_symphony.Tracker.Types.{IssueResult, Database}

abbrev pub is_row : String → ℕ → IssueResult → Bool
is_row issue_uuid attempt r = r.issue_uuid == issue_uuid && nat_eq r.attempt attempt

-- COALESCE(MAX(version), -1) + 1
unfoldable pub next_version : List IssueResult → ℕ
next_version [] = 0
next_version (r ∷ rs) = max (suc r.version) (next_version rs)

-- INSERT … ON CONFLICT(issue_uuid, attempt, version) DO UPDATE
unfoldable pub put_result : IssueResult → List IssueResult → List IssueResult
put_result new [] = new ∷ []
put_result new (r ∷ rs) =
    let rest = put_result new rs in
    if is_row new.issue_uuid new.attempt r && nat_eq r.version new.version
    then record r { payload = new.payload; validated = new.validated; created_at = new.created_at }
      ∷ rs
    else r ∷ rest

unfoldable pub upsert_issue_result :
    String → ℕ → ℕ → Json → Bool → Option ℕ → Database → Database × ℕ
upsert_issue_result issue_uuid attempt now payload validated version d =
    let v = get_or version (next_version (keep (is_row issue_uuid attempt) d.results)) in
    (
      record d {
        results =
            put_result
              (record {
                issue_uuid = issue_uuid;
                attempt = attempt;
                version = v;
                payload = payload;
                validated = validated;
                created_at = now;
              })
              d.results;
      },
      v,
    )

-- the row of the highest rank, of those with one rank the first
best_by : (IssueResult → IssueResult → Bool) → List IssueResult → Option IssueResult
best_by above [] = none
best_by above (r ∷ rs) = elim (best_by above rs) [
  | none ↦ some r
  | some best ↦ if above best r then some best else some r
]

above_version : IssueResult → IssueResult → Bool
above_version a b = ltb b.version a.version

above_attempt : IssueResult → IssueResult → Bool
above_attempt a b =
    ltb b.attempt a.attempt || (nat_eq a.attempt b.attempt && ltb b.version a.version)

-- ORDER BY version DESC within an attempt; ORDER BY attempt DESC, version DESC over all of them
unfoldable pub get_latest_issue_result : String → Option ℕ → Database → Option IssueResult
unfolding best_by above_version above_attempt
get_latest_issue_result issue_uuid none d =
    best_by above_attempt (keep (λ r. r.issue_uuid == issue_uuid) d.results)
get_latest_issue_result issue_uuid (some attempt) d =
    best_by above_version (keep (is_row issue_uuid attempt) d.results)
