-- ===== src/Plan/Diff/Hunks.antt =====
-- The hunks of diffMarkdown in src/http/plan-diff.ts. The loop goes over the entries that are left,
-- with their index, and with the number of entries that `idx` jumps over.
pub mod Laws
use nano_symphony.Common.{
  ℕ, zero, suc, ◌+◌, ◌-◌, String, Bool, true, false, Option, none, some, List, [], ◌∷◌, ◌++◌,
  if◌then◌else◌, length, take, drop, keep,
}
use nano_symphony.Plan.Diff.{LineKind, Entry, line_diff}

pub record LineDiffHunk : Type 0 where
  pub old_start : ℕ
  pub new_start : ℕ
  pub lines : List Entry

abbrev pub is_context : LineKind → Bool
is_context LineKind.context = true
is_context _ = false

abbrev same_kind : LineKind → LineKind → Bool
same_kind LineKind.context LineKind.context = true
same_kind LineKind.added LineKind.added = true
same_kind LineKind.removed LineKind.removed = true
same_kind _ _ = false

abbrev pub is_old : LineKind → Bool
is_old LineKind.added = false
is_old _ = true

abbrev pub is_new : LineKind → Bool
is_new LineKind.removed = false
is_new _ = true

-- `diff.slice(start, end)`
abbrev pub slice : ℕ → ℕ → List Entry → List Entry
slice start end es = take (end - start) (drop start es)

unfoldable pub count_range : List Entry → ℕ → ℕ → LineKind → ℕ
count_range diff start end kind = length (keep (λ e. same_kind e.kind kind) (slice start end diff))

unfoldable pub count_side_lines : List Entry → (LineKind → Bool) → ℕ
count_side_lines lines is_side = length (keep (λ e. is_side e.kind) lines)

abbrev pub context_window : ℕ
context_window = 2

-- The hunk that a change at `idx` opens, with the context before it; the starts are patched.
unfoldable pub open_hunk : List Entry → ℕ → LineDiffHunk
unfolding count_range count_side_lines
open_hunk diff idx =
    let start = idx - context_window in
    let hunk : LineDiffHunk = record {
      old_start =
          count_range diff 0 start LineKind.removed + count_range diff 0 start LineKind.context + 1;
      new_start =
          count_range diff 0 start LineKind.added + count_range diff 0 start LineKind.context + 1;
      lines = slice start idx diff;
    } in
    record hunk {
      old_start = count_side_lines hunk.lines is_old + 1;
      new_start = count_side_lines hunk.lines is_new + 1;
    }

abbrev pub push : List Entry → LineDiffHunk → LineDiffHunk
push es h = record h { lines = h.lines ++ es }

abbrev pub last_hunk : Option LineDiffHunk → List LineDiffHunk
last_hunk none = []
last_hunk (some h) = h ∷ []

unfoldable pub hunks_from :
    List Entry → ℕ → ℕ → Option LineDiffHunk → List Entry → List LineDiffHunk
unfolding open_hunk
hunks_from diff skip idx hunk [] = last_hunk hunk
hunks_from diff (suc skip) idx hunk (e ∷ es) = hunks_from diff skip (suc idx) hunk es
hunks_from diff zero idx none (e ∷ es) =
    let nothing = hunks_from diff 0 (suc idx) none es in
    let opened = hunks_from diff 0 (suc idx) (some (push (e ∷ []) (open_hunk diff idx))) es in
    if is_context e.kind then nothing else opened
hunks_from diff zero idx (some h) (e ∷ es) =
    let trailing = take (context_window + 1) (e ∷ es) in
    let closed = push trailing h ∷ hunks_from diff (length trailing - 1) (suc idx) none es in
    let longer = hunks_from diff 0 (suc idx) (some (push (e ∷ []) h)) es in
    if is_context e.kind then closed else longer

unfoldable pub hunks_of : List Entry → List LineDiffHunk
unfolding hunks_from
hunks_of diff = hunks_from diff 0 0 none diff

unfoldable pub diff_markdown : (String → List String) → String → String → List LineDiffHunk
diff_markdown split old_text new_text = hunks_of (line_diff (split old_text) (split new_text))
