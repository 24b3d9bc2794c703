-- ===== src/Worker/Breaker.antt =====
-- The circuit breaker: isCircuitBreakerOpen of src/orchestrator/worker.ts.
pub mod Laws
use mathlib.Core.List.{reverse}
use nano_symphony.Common.{
  ℕ, suc, String, Bool, false, none, some, List, [], ◌∷◌, leb, if◌then◌else◌, is_text,
}
use nano_symphony.Json.{get_text}
use nano_symphony.Tracker.Types.{Event, Database}
use nano_symphony.Tracker.Events.{get_events_by_kind}

-- the payload, or `{}`, has the semantics 'needs_retry'
abbrev pub is_retry : Event → Bool
is_retry e = elim e.payload_json [
  | none ↦ false
  | some p ↦ is_text (get_text "semantics" p) "needs_retry"
]

-- how many of the first events are retries
unfoldable pub leading_retries : List Event → ℕ
leading_retries [] = 0
leading_retries (e ∷ es) = let rest = leading_retries es in if is_retry e then suc rest else 0

-- the loop from the last event back, until one is no retry
unfoldable pub consecutive_failures : List Event → ℕ
unfolding leading_retries
consecutive_failures events = leading_retries (reverse events)

unfoldable pub is_circuit_breaker_open : String → ℕ → Database → Bool
is_circuit_breaker_open issue_uuid threshold d =
    if leb threshold 0
    then false
    else leb threshold (consecutive_failures (get_events_by_kind issue_uuid "session_completed" d))
