-- ===== src/Tracker/Issues/Scheduling.antt =====
-- What getCandidates of src/db/tracker-issues.ts answers.
use mathlib.Core.List.{Perm}
use mathlib.Core.List.Perm
use nano_symphony.Common.{
  All, All-sort_by, All-take, Bool, Bool-cases, List, [], arith, inl, inr, keep, length,
  length-take, refl, sort_by, sort_by-IsSorted, sort_by-perm, suc, take, true, zero, ℕ, ◌↔◌, ◌∷◌,
  ◌≡◌, ◌≤◌,
}
use nano_symphony.Tracker.Types.{Issue, Database}
use nano_symphony.Tracker.Issues.Candidates.{is_candidate, rank, age, get_candidates}
use nano_symphony.Tracker.Issues.Ready.{IsReady, is_candidate-IsReady, IsReady-is_candidate}
use nano_symphony.Tracker.Issues.Ranking.{IsRanked, sort_by-IsRanked, take-IsRanked, length-sort_by}

keep-holds {ℓ} : {A : Type ℓ} (p : A → Bool) (xs : List A) → All (λ x. p x ≡ true) (keep p xs)
keep-holds p [] = tt
keep-holds p (x ∷ xs) = elim (Bool-cases (p x)) [
  | inl e ↦ rw e (e, keep-holds p xs)
  | inr e ↦ rw e (keep-holds p xs)
]

take_all {ℓ} : {A : Type ℓ} (n : ℕ) (xs : List A) → length xs ≤ n → take n xs ≡ xs
take_all zero [] h = refl
take_all zero (x ∷ xs) h = absurd (omega (arith, h))
take_all (suc n) [] h = refl
take_all (suc n) (x ∷ xs) h = rw (take_all n xs (omega arith))

All-map {ℓ κ} :
    {A : Type ℓ} (P Q : A → Type κ) (xs : List A) → ((x : A) → P x → Q x) → All P xs → All Q xs
All-map P Q [] f h = tt
All-map P Q (x ∷ xs) f h = (f x h.0, All-map P Q xs f h.1)

-- At most `limit` issues are answered, each of them may be started, and they stand by priority and, within
-- one priority, by age.
pub get_candidates_sound :
    (now limit : ℕ) (d : Database)
    → (length (get_candidates now limit d) ≤ limit)
      × All (IsReady now d) (get_candidates now limit d)
      × IsRanked (get_candidates now limit d)
unfolding get_candidates
get_candidates_sound now limit d =
    let found = keep (is_candidate now d) d.issues in
    let ready =
      All-map (λ i. is_candidate now d i ≡ true) (IsReady now d) found (is_candidate-IsReady now d)
        (keep-holds (is_candidate now d) d.issues) in
    (
      omega (arith, length-take limit (sort_by rank (sort_by age found))),
      All-take (IsReady now d) limit _
          (All-sort_by rank (IsReady now d) _ (All-sort_by age (IsReady now d) found ready)),
      take-IsRanked limit _ (sort_by-IsRanked (sort_by age found) (sort_by-IsSorted age found)),
    )

-- The query's condition says exactly when an issue may be started, and with a limit that the candidates
-- do not exceed, the answer is made up of exactly those issues of the table, each as often.
pub get_candidates_complete :
    (now limit : ℕ) (d : Database)
    → length (keep (is_candidate now d) d.issues) ≤ limit
    → Perm (get_candidates now limit d) (keep (is_candidate now d) d.issues)
      × ((i : Issue) → (is_candidate now d i ≡ true) ↔ IsReady now d i)
unfolding get_candidates
get_candidates_complete now limit d room =
    let found = keep (is_candidate now d) d.issues in
    let fits : length (sort_by rank (sort_by age found)) ≤ limit =
      omega (arith, length-sort_by rank (sort_by age found), length-sort_by age found, room) in
    (
      rw (take_all limit (sort_by rank (sort_by age found)) fits)
          (Perm.trans (sort_by-perm rank (sort_by age found)) (sort_by-perm age found)),
      λ i. (is_candidate-IsReady now d i, IsReady-is_candidate now d i),
    )
