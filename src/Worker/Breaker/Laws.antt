-- ===== src/Worker/Breaker/Laws.antt =====
-- When isCircuitBreakerOpen of src/orchestrator/worker.ts opens the breaker.
use nano_symphony.Common.{
  ℕ, zero, suc, ◌≤◌, String, ◌≡◌, refl, ◌↔◌, inl, inr, true, List, [], ◌∷◌, ◌++◌, arith, Bool-cases,
  length, All,
}
use mathlib.Core.List.{reverse}
use nano_symphony.Tracker.Types.{Event, Database}
use nano_symphony.Tracker.Events.{get_events_by_kind}
use nano_symphony.Worker.Breaker.{
  is_circuit_breaker_open, consecutive_failures, is_retry, leading_retries,
}

leading :
    (n : ℕ) (es : List Event)
    → n ≤ leading_retries es
    → (recent : List Event) × (old : List Event) × (es ≡ recent ++ old)
      × (length recent ≡ n)
      × All (λ e. is_retry e ≡ true) recent
unfolding leading_retries
leading zero es h = ([], es, refl, refl, tt)
leading (suc n) [] h = absurd (omega arith)
leading (suc n) (e ∷ es) h = elim (Bool-cases (is_retry e)) [
  | inl r ↦
      let (recent, old, same, len, all_retry) = leading n es (ground arith) in
      (e ∷ recent, old, rw same, rw len, (r, all_retry))
  | inr r ↦ absurd (ground arith)
]

prefix_leading :
    (recent old : List Event)
    → All (λ e. is_retry e ≡ true) recent
    → length recent ≤ leading_retries (recent ++ old)
unfolding leading_retries
prefix_leading [] old h = omega arith
prefix_leading (e ∷ recent) old h = rw h.0 (omega (arith, prefix_leading recent old h.1))

enough_retries :
    (threshold : ℕ) (es newest older : List Event)
    → es ≡ newest ++ older
    → length newest ≡ threshold
    → All (λ e. is_retry e ≡ true) newest
    → threshold ≤ leading_retries es
enough_retries threshold es newest older same len all_retry =
    rw (same, ← len) (prefix_leading newest older all_retry)

-- With a threshold of at least 1, the breaker is open exactly when the newest `threshold` sessions of the
-- issue were all reported as needing a retry.
pub is_circuit_breaker_open_iff :
    (u : String) (threshold : ℕ) (d : Database)
    → 1 ≤ threshold
    → (is_circuit_breaker_open u threshold d ≡ true) ↔ (
        (newest : List Event) × (older : List Event) × (reverse
            (get_events_by_kind u "session_completed" d)
          ≡ newest ++ older)
        × (length newest ≡ threshold)
        × All (λ e. is_retry e ≡ true) newest)
unfolding is_circuit_breaker_open consecutive_failures
is_circuit_breaker_open_iff u threshold d pos =
    let es = reverse (get_events_by_kind u "session_completed" d) in
    (
      λ h. leading threshold es (ground arith),
      λ w. let enough = enough_retries threshold es w.0 w.1 w.2 w.3 w.4 in ground arith,
    )
