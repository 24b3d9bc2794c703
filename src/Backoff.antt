-- ===== src/Backoff.antt =====
-- The delay before a retry: calculateBackoff of src/orchestrator/backoff.ts, in whole milliseconds. A double is
-- counted in units of 1 / unit, and `round` stands for IEEE rounding of an exact value to a double.
-- `Math.random()` is the argument `r / unit`. The minimum and the powers of 2 are exact in doubles
-- while they stay below 2 ^ 53.
pub mod Bounds
use nano_symphony.Common.{ℕ, ◌+◌, ◌*◌, ◌/◌, ◌^◌, min, []}

-- how doubles are counted, and how they are rounded
pub record Doubles : Type 0 where
  pub unit : ℕ
  pub round : ℕ → ℕ

capped : ℕ → ℕ → ℕ → ℕ
capped attempt base max_backoff = min max_backoff (base * 2 ^ attempt)

-- `Math.random() * baseMs`
abbrev pub jitter : Doubles → ℕ → ℕ → ℕ
jitter doubles r base = doubles.round (r * base)

-- `Math.floor(delay + jitter)`
unfoldable pub calculate_backoff : Doubles → ℕ → ℕ → ℕ → ℕ → ℕ
unfolding capped
calculate_backoff doubles r attempt base max_backoff =
    doubles.round (capped attempt base max_backoff * doubles.unit + jitter doubles r base)
    / doubles.unit
