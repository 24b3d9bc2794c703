-- ===== src/Plan/Diff/Hunks/Laws.antt =====
-- The hunks of src/http/plan-diff.ts: the changes that they show and the lines that they start at.
use mathlib.Core.List.{Sublistᴰ}
use mathlib.Core.List.Sublistᴰ
use nano_symphony.Common.{
  ℕ, zero, suc, ◌-◌, ◌≤◌, ◌≡◌, refl, sym, ap, ◌∙◌, subst, inl, inr, true, false, not, Option, none,
  some, List, [], ◌∷◌, ◌++◌, arith, Bool-cases, length, take, drop, keep, keep-append, length-keep,
  take-drop, length-take, All,
}
use nano_symphony.Plan.Diff.{Entry}
use nano_symphony.Plan.Diff.Hunks.{
  LineDiffHunk, is_context, is_old, is_new, slice, count_side_lines, open_hunk, push, hunks_from,
  hunks_of,
}

-- the entries that are no context
abbrev pub changes : List Entry → List Entry
changes = keep (λ e. not (is_context e.kind))

-- the lines of all hunks
unfoldable pub shown : List LineDiffHunk → List Entry
shown [] = []
shown (h ∷ hs) = h.lines ++ shown hs

-- the changes of the hunk that is open
abbrev open_changes : Option LineDiffHunk → List Entry
open_changes none = []
open_changes (some h) = changes h.lines

module _ {ℓ} {A : Type ℓ} where
  Sublist-prefix : (xs : List A) {ys zs : List A} → Sublistᴰ ys zs → Sublistᴰ (xs ++ ys) (xs ++ zs)
  Sublist-prefix [] p = p
  Sublist-prefix (x ∷ xs) p = Sublistᴰ.cons-cons refl (Sublist-prefix xs p)

  Sublist-behind : (xs ys : List A) → Sublistᴰ ys (xs ++ ys)
  Sublist-behind [] ys = Sublistᴰ.refl ys
  Sublist-behind (x ∷ xs) ys = Sublistᴰ.cons (Sublist-behind xs ys)

  append_assoc : (xs ys zs : List A) → (xs ++ ys) ++ zs ≡ xs ++ (ys ++ zs)
  append_assoc [] ys zs = refl
  append_assoc (x ∷ xs) ys zs = ap (λ l. x ∷ l) (append_assoc xs ys zs)

  append_nil : (xs : List A) → xs ++ [] ≡ xs
  append_nil [] = refl
  append_nil (x ∷ xs) = ap (λ l. x ∷ l) (append_nil xs)

  drop-nil : (n : ℕ) → drop {A = A} n [] ≡ []
  drop-nil zero = refl
  drop-nil (suc n) = refl

changes-append : (xs ys : List Entry) → changes (xs ++ ys) ≡ changes xs ++ changes ys
changes-append = keep-append (λ (e : Entry). not (is_context e.kind))

-- a change at the end of the lines and the changes after it
changes-push :
    (lines : List Entry) (e : Entry) (es : List Entry)
    → is_context e.kind ≡ false
    → changes (lines ++ e ∷ []) ++ changes es ≡ changes lines ++ (e ∷ changes es)
changes-push lines e es c =
    rw (changes-append lines (e ∷ []), c) (append_assoc (changes lines) (e ∷ []) (changes es))

-- The hunk is closed by the context `e` with the two entries behind it.
changes-close :
    (lines : List Entry) (e : Entry) (es rest : List Entry) (k : ℕ)
    → is_context e.kind ≡ true
    → k ≡ length (take 2 es)
    → Sublistᴰ (changes (drop k es)) (changes rest)
    → Sublistᴰ (changes lines ++ changes es) (changes ((lines ++ e ∷ take 2 es) ++ rest))
changes-close lines e es rest k c same p =
    let whole : changes (take 2 es) ++ changes (drop k es) ≡ changes es =
      sym (changes-append (take 2 es) (drop k es))
      ∙ ap (λ n. changes (take 2 es ++ drop n es)) same
      ∙ ap changes (take-drop 2 es) in
    let shows : (changes lines ++ changes (e ∷ take 2 es)) ++ changes rest
        ≡ changes ((lines ++ e ∷ take 2 es) ++ rest) =
      ap (λ l. l ++ changes rest) (sym (changes-append lines (e ∷ take 2 es)))
      ∙ sym (changes-append (lines ++ e ∷ take 2 es) rest) in
    let skips : changes (e ∷ take 2 es) ≡ changes (take 2 es) = rw c refl in
    let inner = Sublist-prefix (changes lines) (Sublist-prefix (changes (take 2 es)) p) in
    subst (λ l. Sublistᴰ (changes lines ++ changes es) l)
      (sym (append_assoc (changes lines) (changes (take 2 es)) (changes rest))
        ∙ ap (λ l. (changes lines ++ l) ++ changes rest) (sym skips)
        ∙ shows)
      (subst
        (λ l.
          Sublistᴰ (changes lines ++ l) (changes lines ++ (changes (take 2 es) ++ changes rest)))
        whole inner)

changes-hunks_from :
    (diff : List Entry) (skip idx : ℕ) (hunk : Option LineDiffHunk) (es : List Entry)
    → Sublistᴰ
        (open_changes hunk ++ changes (drop skip es))
        (changes (shown (hunks_from diff skip idx hunk es)))
unfolding hunks_from shown
changes-hunks_from diff skip idx none [] = rw (drop-nil {A = Entry} skip) Sublistᴰ.slnil
changes-hunks_from diff skip idx (some h) [] =
    rw (drop-nil {A = Entry} skip, append_nil (changes h.lines), append_nil h.lines)
      (Sublistᴰ.refl (changes h.lines))
changes-hunks_from diff (suc skip) idx hunk (e ∷ es) =
    changes-hunks_from diff skip (suc idx) hunk es
changes-hunks_from diff zero idx none (e ∷ es) = elim (Bool-cases (is_context e.kind)) [
  | inl c ↦ rw c (changes-hunks_from diff 0 (suc idx) none es)
  | inr c ↦
      let lead = (open_hunk diff idx).lines in
      let rest =
        changes-hunks_from diff 0 (suc idx) (some (push (e ∷ []) (open_hunk diff idx))) es in
      rw c (
        Sublistᴰ.trans (Sublist-behind (changes lead) (e ∷ changes es)) (
          subst
            (λ l. Sublistᴰ l (
              changes (
                shown
                  (hunks_from diff 0 (suc idx) (some (push (e ∷ []) (open_hunk diff idx))) es))))
            (changes-push lead e es c) rest))
]
changes-hunks_from diff zero idx (some h) (e ∷ es) = elim (Bool-cases (is_context e.kind)) [
  | inl c ↦ rw c (
      changes-close h.lines e es
        (shown (hunks_from diff (suc (length (take 2 es)) - 1) (suc idx) none es))
        (suc (length (take 2 es)) - 1) c (omega arith)
        (changes-hunks_from diff (suc (length (take 2 es)) - 1) (suc idx) none es))
  | inr c ↦
      let rest = changes-hunks_from diff 0 (suc idx) (some (push (e ∷ []) h)) es in
      rw c (
        subst
          (λ l.
            Sublistᴰ l (changes (shown (hunks_from diff 0 (suc idx) (some (push (e ∷ []) h)) es))))
          (changes-push h.lines e es c) rest)
]

-- Every added or removed line of the diff stands in a hunk: the changes of the diff are a subsequence of those of the
-- hunks together.
pub hunks_of-changes :
    (diff : List Entry) → Sublistᴰ (changes diff) (changes (shown (hunks_of diff)))
unfolding hunks_of
hunks_of-changes diff = changes-hunks_from diff 0 0 none diff

abbrev pub StartsEarly : LineDiffHunk → Type 0
StartsEarly h = (h.old_start ≤ 3) × (h.new_start ≤ 3)

abbrev OpenStartsEarly : Option LineDiffHunk → Type 0
OpenStartsEarly none = Unit
OpenStartsEarly (some h) = StartsEarly h

length-slice : (diff : List Entry) (idx : ℕ) → length (slice (idx - 2) idx diff) ≤ 2
length-slice diff idx = omega (arith, length-take (idx - (idx - 2)) (drop (idx - 2) diff))

open_hunk-StartsEarly : (diff : List Entry) (idx : ℕ) → StartsEarly (open_hunk diff idx)
unfolding open_hunk count_side_lines
open_hunk-StartsEarly diff idx =
    let lines = slice (idx - 2) idx diff in
    let bound = length-slice diff idx in
    (
      omega (arith, bound, length-keep (λ (e : Entry). is_old e.kind) lines),
      omega (arith, bound, length-keep (λ (e : Entry). is_new e.kind) lines),
    )

hunks_from-StartsEarly :
    (diff : List Entry) (skip idx : ℕ) (hunk : Option LineDiffHunk) (es : List Entry)
    → OpenStartsEarly hunk
    → All StartsEarly (hunks_from diff skip idx hunk es)
unfolding hunks_from
hunks_from-StartsEarly diff skip idx none [] h = tt
hunks_from-StartsEarly diff skip idx (some hunk) [] h = (h, tt)
hunks_from-StartsEarly diff (suc skip) idx hunk (e ∷ es) h =
    hunks_from-StartsEarly diff skip (suc idx) hunk es h
hunks_from-StartsEarly diff zero idx none (e ∷ es) h = elim (Bool-cases (is_context e.kind)) [
  | inl c ↦ rw c (hunks_from-StartsEarly diff 0 (suc idx) none es tt)
  | inr c ↦
      let opened = push (e ∷ []) (open_hunk diff idx) in
      rw c
        (hunks_from-StartsEarly diff 0 (suc idx) (some opened) es (open_hunk-StartsEarly diff idx))
]
hunks_from-StartsEarly diff zero idx (some hunk) (e ∷ es) h =
    elim (Bool-cases (is_context e.kind)) [
      | inl c ↦
          rw c (h, hunks_from-StartsEarly diff (suc (length (take 2 es)) - 1) (suc idx) none es tt)
      | inr c ↦ rw c (hunks_from-StartsEarly diff 0 (suc idx) (some (push (e ∷ []) hunk)) es h)
    ]

-- Every hunk says that it starts in the first three lines of either text, wherever it stands.
pub hunks_of-StartsEarly : (diff : List Entry) → All StartsEarly (hunks_of diff)
unfolding hunks_of
hunks_of-StartsEarly diff = hunks_from-StartsEarly diff 0 0 none diff tt
