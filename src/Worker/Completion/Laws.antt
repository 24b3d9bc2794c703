-- ===== src/Worker/Completion/Laws.antt =====
-- What deriveCompletion of src/orchestrator/worker.ts makes of an attempt.
use nano_symphony.Common.{
  ℕ, String, ◌≡◌, refl, ap, subst, ◌↔◌, ◌⊎◌, inl, inr, true, false, Option, none, some, arith, ◌==◌,
  eq_iff, nat_eq, nat_eq_iff, Bool-cases, get_or,
}
use nano_symphony.Worker.Completion.{
  Payload, SpawnResult, was_killed, failed_code, exit_code_of, derive_completion,
}

-- the comparisons of a status
abbrev IsText : String → String → Type 0
IsText s t = ((s == t) ≡ true) ↔ (s ≡ t)

texts :
    (x : Payload)
    → IsText x.status "success"
      × IsText x.status "needs_retry"
      × IsText x.status "abandoned"
      × IsText "needs_retry" "success"
      × IsText "abandoned" "success"
texts x = (
  eq_iff x.status "success",
  eq_iff x.status "needs_retry",
  eq_iff x.status "abandoned",
  eq_iff "needs_retry" "success",
  eq_iff "abandoned" "success",
)

-- an exit code that does not count as a failure
Harmless : Option SpawnResult → Type 0
Harmless r = (x : SpawnResult) → r ≡ some x → (x.exit_code ≡ none) ⊎ (x.exit_code ≡ some 0)

failed_code-none : (c : Option ℕ) → (failed_code c ≡ none) ↔ ((c ≡ none) ⊎ (c ≡ some 0))
failed_code-none none = (λ h. inl refl, λ h. refl)
failed_code-none (some c) = elim (Bool-cases (nat_eq c 0)) [
  | inl e ↦ (λ h. inr (ap some ((nat_eq_iff c 0).0 e)), λ h. rw e refl)
  | inr e ↦ (λ h. let bad = rw e at h in cc, λ h. absurd (not_zero e h))
]
  where
    not_zero : {c : ℕ} → nat_eq c 0 ≡ false → (some c ≡ none) ⊎ (some c ≡ some 0) → ⊥
    not_zero e (inl h) = cc
    not_zero e (inr h) = let same = ap (λ o. get_or o 1) h in ground (arith, nat_eq_iff _ 0)

failed_code-Harmless : (r : Option SpawnResult) → (failed_code (exit_code_of r) ≡ none) ↔ Harmless r
unfolding Harmless
failed_code-Harmless none = (λ h x e. cc, λ h. refl)
failed_code-Harmless (some r) =
    let (to, from) = failed_code-none r.exit_code in
    (
      λ h x e. subst (λ o. (exit_code_of o ≡ none) ⊎ (exit_code_of o ≡ some 0)) e (to h),
      λ h. from (h r refl),
    )

module _ (normalize : String → String) where
  success_parts :
      (r : Option SpawnResult) (p : Option Payload)
      → ((derive_completion normalize r p).semantics ≡ "success") ↔ (
          (was_killed r ≡ false)
          × ((x : Payload) × (p ≡ some x) × (x.status ≡ "success"))
          × (failed_code (exit_code_of r) ≡ none))
  unfolding derive_completion
  success_parts r none =
      ground (arith, eq_iff "abandoned" "success", eq_iff "needs_retry" "success")
  success_parts r (some x) = (
    λ h. (ground (arith, texts x), (x, refl, ground (arith, texts x)), ground (arith, texts x)),
    λ h. ground (arith, texts x),
  )

  -- deriveCompletion answers success exactly when the agent was not killed by the timeout, delivered a
  -- payload that says success, and its exit code is 0 or not known. What the worker does to this answer
  -- afterwards is not part of it.
  pub derive_completion-success :
      (r : Option SpawnResult) (p : Option Payload)
      → ((derive_completion normalize r p).semantics ≡ "success") ↔ (
          (was_killed r ≡ false)
          × ((x : Payload) × (p ≡ some x) × (x.status ≡ "success"))
          × ((x : SpawnResult) → r ≡ some x → (x.exit_code ≡ none) ⊎ (x.exit_code ≡ some 0)))
  unfolding Harmless
  derive_completion-success r p =
      let (to, from) = success_parts r p in
      let (ok, back) = failed_code-Harmless r in
      (
        λ h. let (alive, said, code) = to h in (alive, said, ok code),
        λ (alive, said, code). from (alive, said, back code),
      )

  -- Every attempt is a success, is to be tried again or is abandoned, and a success has no fingerprint of a
  -- blocker and no cause of termination.
  pub derive_completion-total :
      (r : Option SpawnResult) (p : Option Payload)
      → let c = derive_completion normalize r p in
        ((c.semantics ≡ "success") × (c.blocker_fingerprint ≡ none) × (c.termination_cause ≡ none))
        ⊎ (c.semantics ≡ "needs_retry")
        ⊎ (c.semantics ≡ "abandoned")
  unfolding derive_completion
  derive_completion-total r none = ground arith
  derive_completion-total r (some x) = ground (arith, texts x)
