-- ===== src/Tracker/Results/Versions.antt =====
-- Versions of results: upsertIssueResult and getLatestIssueResult of src/db/tracker-issue-
-- results.ts.
use nano_symphony.Common.{
  ℕ, ◌≤◌, ◌<◌, String, ◌≡◌, refl, inl, inr, Bool, true, false, ◌&&◌, none, some, List, [], ◌∷◌,
  ◌++◌, arith, ◌==◌, eq_refl, nat_eq, nat_eq_iff, Bool-cases, keep, All,
}
use nano_symphony.Json.{Json}
use nano_symphony.Tracker.Types.{IssueResult, Database}
use nano_symphony.Tracker.Results.{
  is_row, next_version, put_result, upsert_issue_result, best_by, above_version,
  get_latest_issue_result,
}

abbrev IsBelow : ℕ → List IssueResult → Type 0
IsBelow v rs = All (λ r. r.version < v) rs

IsBelow-le : (v w : ℕ) (rs : List IssueResult) → v ≤ w → IsBelow v rs → IsBelow w rs
IsBelow-le v w [] le h = tt
IsBelow-le v w (r ∷ rs) le h = (omega arith, IsBelow-le v w rs le h.1)

next_version-IsBelow : (rs : List IssueResult) → IsBelow (next_version rs) rs
unfolding next_version
next_version-IsBelow [] = tt
next_version-IsBelow (r ∷ rs) =
    (omega arith, IsBelow-le (next_version rs) _ rs (omega arith) (next_version-IsBelow rs))

newer_row : (v w : ℕ) → v < w → nat_eq v w ≡ false
newer_row v w h = ground arith

-- A version above those of the attempt is a new row of the attempt.
keep-put_result :
    (new : IssueResult) (rs : List IssueResult)
    → let mine = is_row new.issue_uuid new.attempt in
      IsBelow new.version (keep mine rs)
      → mine new ≡ true
      → keep mine (put_result new rs) ≡ keep mine rs ++ new ∷ []
unfolding put_result
keep-put_result new [] h own = rw own
keep-put_result new (r ∷ rs) h own =
    let mine = is_row new.issue_uuid new.attempt in
    elim (Bool-cases (mine r)) [
      | inl e ↦
          let below = rw e at h in
          rw (e, newer_row r.version new.version below.0, e)
            (rw (keep-put_result new rs below.1 own))
      | inr e ↦ rw (e, e) (keep-put_result new rs (rw e at h) own)
    ]

best_by-snoc :
    (new : IssueResult) (rs : List IssueResult)
    → IsBelow new.version rs
    → best_by above_version (rs ++ new ∷ []) ≡ some new
unfolding best_by above_version
best_by-snoc new [] h = refl
best_by-snoc new (r ∷ rs) h = ground (arith, best_by-snoc new rs h.1)

own_row : (u : String) (a : ℕ) → (u == u && nat_eq a a) ≡ true
own_row u a = rw (eq_refl u, (nat_eq_iff a a).1 refl)

-- An agent that emits a result without a version: reading the latest result of that attempt gives it
-- back, with the version that the call answered, which is above all earlier ones of the attempt.
pub get_latest_issue_result-upsert :
    (u : String) (a now : ℕ) (payload : Json) (validated : Bool) (d : Database)
    → let (d', v) = upsert_issue_result u a now payload validated none d in
      (get_latest_issue_result u (some a) d'
        ≡ some (record {
          issue_uuid = u;
          attempt = a;
          version = v;
          payload = payload;
          validated = validated;
          created_at = now;
        }))
      × All (λ r. r.version < v) (keep (is_row u a) d.results)
unfolding upsert_issue_result get_latest_issue_result
get_latest_issue_result-upsert u a now payload validated d =
    let v = next_version (keep (is_row u a) d.results) in
    let new : IssueResult = record {
      issue_uuid = u;
      attempt = a;
      version = v;
      payload = payload;
      validated = validated;
      created_at = now;
    } in
    let below = next_version-IsBelow (keep (is_row u a) d.results) in
    (
      rw (keep-put_result new d.results below (own_row u a))
          (best_by-snoc new (keep (is_row u a) d.results) below),
      below,
    )
