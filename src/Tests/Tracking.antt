-- ===== src/Tests/Tracking.antt =====
-- The tracker and the semaphore at concrete inputs.
use nano_symphony.Common.{
  ◌+◌, ◌*◌, ◌^◌, ◌≤◌, min, String, ◌≡◌, refl, ◌≢◌, ◌↔◌, ◌⊎◌, inl, true, List, [], ◌∷◌, ◌++◌, arith,
  eq_iff, length, keep, All, find_row,
}
use nano_symphony.Tracker.Types.{Issue, Database}
use nano_symphony.Tracker.Runs.Claim.{
  RunOp, claim, release, beat, mark_attempt, remove, count_wins, count_wins-le-one,
}
use nano_symphony.Tracker.Issues.Candidates.{get_candidates, is_candidate, run_allows}
use nano_symphony.Tracker.Issues.Ready.{IsReady}
use nano_symphony.Tracker.Issues.Ranking.{IsRanked}
use nano_symphony.Tracker.Issues.Scheduling.{get_candidates_sound, get_candidates_complete}
use mathlib.Core.List.{Perm}
use nano_symphony.Semaphore.{Semaphore}
use nano_symphony.Semaphore.Laws.{Op, ask, leave, start, run, run-start}
use nano_symphony.Backoff.{calculate_backoff}
use nano_symphony.Backoff.Bounds.{IsRounding, calculate_backoff_bounds}
use nano_symphony.Tests.Samples.{quarters, issue_of, run_of, tables}

abbrev some_ops : List Op
some_ops = ask 0 ∷ ask 1 ∷ ask 2 ∷ leave ∷ []

run-start_example :
    let w = run (start 2) some_ops in
    (w.sem.count + w.running ≡ w.sem.limit)
    × (w.running ≤ w.sem.limit)
    × ((w.sem.queue ≡ []) ⊎ (w.sem.count ≡ 0))
    × (w.granted ++ w.sem.queue ≡ w.asked)
run-start_example = run-start 2 some_ops (tt, (tt, (tt, (tt, tt))))

abbrev full_semaphore : Semaphore
full_semaphore = record { limit = 3; count = 0; queue = [] }

quarters-IsRounding : IsRounding quarters
quarters-IsRounding = record {
  unit_pos = omega arith;
  monotone = λ h. omega (arith, h);
  whole = λ n h. omega arith;
}

calculate_backoff_bounds_example :
    let d = calculate_backoff quarters 3 2 5000 300000 in
    let delay = min 300000 (5000 * 2 ^ 2) in (delay ≤ d) × (d ≤ delay + 5000)
calculate_backoff_bounds_example =
    calculate_backoff_bounds quarters quarters-IsRounding 3 2 5000 300000 (omega arith)
      (omega arith)

abbrev idle_tables : Database
idle_tables = tables (issue_of "a" "todo" "high" ∷ []) (run_of "a" "released" "" ∷ [])

abbrev rival_claims : List RunOp
rival_claims =
    claim "a" 1 20
    ∷ mark_attempt "a" 1
    ∷ release "b" "released"
    ∷ remove "b"
    ∷ beat "a" 30
    ∷ claim "a" 2 40
    ∷ []

b_not_a : ◌≢◌ {A = String} "b" "a"
b_not_a = ground (arith, eq_iff "b" "a")

count_wins-le-one_example : count_wins "a" rival_claims idle_tables ≤ 1
count_wins-le-one_example =
    count_wins-le-one "a" rival_claims idle_tables
      (tt, (tt, (inl b_not_a, (b_not_a, (tt, (tt, tt))))))

get_candidates_sound_example :
    (length (get_candidates 1000 3 idle_tables) ≤ 3)
    × All (IsReady 1000 idle_tables) (get_candidates 1000 3 idle_tables)
    × IsRanked (get_candidates 1000 3 idle_tables)
get_candidates_sound_example = get_candidates_sound 1000 3 idle_tables

one_candidate : length (keep (is_candidate 1000 idle_tables) idle_tables.issues) ≡ 1
unfolding is_candidate find_row run_allows
one_candidate = refl

get_candidates_complete_example :
    Perm
      (get_candidates 1000 1 idle_tables)
      (keep (is_candidate 1000 idle_tables) idle_tables.issues)
    × ((i : Issue) → (is_candidate 1000 idle_tables i ≡ true) ↔ IsReady 1000 idle_tables i)
get_candidates_complete_example =
    get_candidates_complete 1000 1 idle_tables (rw one_candidate (omega arith))
