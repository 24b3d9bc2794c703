-- ===== src/Tracker/Issues/Ranking.antt =====
-- The order in which getCandidates of src/db/tracker-issues.ts answers.
use nano_symphony.Common.{
  All, All-sort_by, All-take, Bool-cases, IsSorted, List, [], ap, arith, inl, inr, insert_by, leb,
  leb→le, length, refl, sort_by, suc, take, zero, ℕ, ◌<◌, ◌∙◌, ◌∷◌, ◌≡◌, ◌≤◌, ◌⊎◌,
}
use nano_symphony.Tracker.Types.{Issue}
use nano_symphony.Tracker.Issues.Candidates.{rank, age}

abbrev Before : Issue → Issue → Type 0
Before a b = (rank a < rank b) ⊎ ((rank a ≡ rank b) × (age a ≤ age b))

-- by priority, the most urgent first, and the oldest first among those of one priority
abbrev pub IsRanked : List Issue → Type 0
IsRanked [] = Unit
IsRanked (x ∷ xs) = All (Before x) xs × IsRanked xs

All-Before :
    (x y : Issue) (ys : List Issue)
    → rank x ≤ rank y
    → All (λ z. age x ≤ age z) ys
    → All (Before y) ys
    → All (Before x) ys
All-Before x y [] r a h = tt
All-Before x y (z ∷ zs) r a h = (ground arith, All-Before x y zs r a.1 h.1)

All-insert_Before :
    (y x : Issue) (ys : List Issue)
    → Before y x
    → All (Before y) ys
    → All (Before y) (insert_by rank x ys)
unfolding insert_by
All-insert_Before y x [] p h = (p, tt)
All-insert_Before y x (z ∷ zs) p h = elim (Bool-cases (leb (rank x) (rank z))) [
  | inl e ↦ rw e (p, h)
  | inr e ↦ rw e (h.0, All-insert_Before y x zs p h.1)
]

insert_by-IsRanked :
    (x : Issue) (ys : List Issue)
    → All (λ z. age x ≤ age z) ys
    → IsRanked ys
    → IsRanked (insert_by rank x ys)
unfolding insert_by
insert_by-IsRanked x [] a h = (tt, tt)
insert_by-IsRanked x (y ∷ ys) a h = elim (Bool-cases (leb (rank x) (rank y))) [
  | inl e ↦
      let le = leb→le (rank x) (rank y) e in rw e ((ground arith, All-Before x y ys le a.1 h.0), h)
  | inr e ↦ rw e (All-insert_Before y x ys (ground arith) h.0, insert_by-IsRanked x ys a.1 h.1)
]

pub sort_by-IsRanked : (xs : List Issue) → IsSorted age xs → IsRanked (sort_by rank xs)
unfolding sort_by
sort_by-IsRanked [] h = tt
sort_by-IsRanked (x ∷ xs) h =
    insert_by-IsRanked x (sort_by rank xs) (All-sort_by rank _ xs h.0) (sort_by-IsRanked xs h.1)

pub take-IsRanked : (n : ℕ) (xs : List Issue) → IsRanked xs → IsRanked (take n xs)
take-IsRanked zero xs h = tt
take-IsRanked (suc n) [] h = tt
take-IsRanked (suc n) (x ∷ xs) h = (All-take (Before x) n xs h.0, take-IsRanked n xs h.1)

length-insert_by :
    (key : Issue → ℕ) (x : Issue) (ys : List Issue) → length (insert_by key x ys) ≡ suc (length ys)
unfolding insert_by
length-insert_by key x [] = refl
length-insert_by key x (y ∷ ys) = elim (Bool-cases (leb (key x) (key y))) [
  | inl e ↦ rw e refl
  | inr e ↦ rw e (ap suc (length-insert_by key x ys))
]

pub length-sort_by : (key : Issue → ℕ) (xs : List Issue) → length (sort_by key xs) ≡ length xs
unfolding sort_by
length-sort_by key [] = refl
length-sort_by key (x ∷ xs) =
    length-insert_by key x (sort_by key xs) ∙ ap suc (length-sort_by key xs)
