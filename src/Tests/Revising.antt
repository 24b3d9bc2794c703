-- ===== src/Tests/Revising.antt =====
-- Two revisions of a plan at concrete texts and steps.
use mathlib.Core.List.{Sublistᴰ}
use nano_symphony.Common.{◌≤◌, String, ◌≡◌, refl, none, some, List, [], ◌∷◌, length}
use nano_symphony.Plan.Diff.{LineKind, Entry, entry, line_diff, walk, table, cell, fill_row, zeros}
use nano_symphony.Plan.Diff.Lines.{old_side, new_side, kept, line_diff-sides}
use nano_symphony.Plan.Diff.Longest.{line_diff-IsLongest}
use nano_symphony.Plan.Diff.Hunks.{hunks_of, hunks_from, open_hunk, count_range, count_side_lines}
use nano_symphony.Plan.Diff.Hunks.Laws.{changes, shown}
use nano_symphony.Plan.Diff.Steps.{PlanStep}

abbrev old_lines : List String
old_lines = "a" ∷ "b" ∷ "c" ∷ []

abbrev new_lines : List String
new_lines = "a" ∷ "c" ∷ "d" ∷ []

abbrev between_them : List Entry
between_them =
    entry LineKind.context "a"
    ∷ entry LineKind.removed "b"
    ∷ entry LineKind.context "c"
    ∷ entry LineKind.added "d"
    ∷ []

line_diff-run : line_diff old_lines new_lines ≡ between_them
unfolding line_diff table zeros fill_row walk cell
line_diff-run = refl

line_diff-sides_example :
    (old_side (line_diff old_lines new_lines) ≡ old_lines)
    × (new_side (line_diff old_lines new_lines) ≡ new_lines)
line_diff-sides_example = line_diff-sides old_lines new_lines

line_diff-IsLongest_example :
    Sublistᴰ (kept (line_diff old_lines new_lines)) old_lines
    × Sublistᴰ (kept (line_diff old_lines new_lines)) new_lines
    × ((zs : List String)
        → Sublistᴰ zs old_lines
        → Sublistᴰ zs new_lines
        → length zs ≤ length (kept (line_diff old_lines new_lines)))
line_diff-IsLongest_example = line_diff-IsLongest old_lines new_lines

-- a change, two lines of context, and two changes: the second change is shown by both hunks
abbrev crowded : List Entry
crowded =
    entry LineKind.added "x"
    ∷ entry LineKind.context "a"
    ∷ entry LineKind.context "b"
    ∷ entry LineKind.added "y"
    ∷ entry LineKind.added "z"
    ∷ []

changes-crowded :
    changes (shown (hunks_of crowded))
    ≡ entry LineKind.added "x"
      ∷ entry LineKind.added "y"
      ∷ entry LineKind.added "y"
      ∷ entry LineKind.added "z"
      ∷ []
unfolding hunks_of hunks_from open_hunk count_range count_side_lines shown
changes-crowded = refl

abbrev build : List String → PlanStep
build after = record { id = "b"; title = "build"; description = none; after = some after }
