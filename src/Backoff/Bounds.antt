-- ===== src/Backoff/Bounds.antt =====
-- How long calculateBackoff of src/orchestrator/backoff.ts puts a retry off.
use native.Mathlib.Nat.{div-lt_iff_lt-mul, le-div_iff_mul-le}
use nano_symphony.Common.{ℕ, ◌+◌, ◌*◌, ◌/◌, ◌^◌, ◌≤◌, ◌<◌, min, ◌≡◌, arith}
use nano_symphony.Backoff.{Doubles, capped, jitter, calculate_backoff}

-- What IEEE 754 promises of rounding: it keeps the order, and a whole number below 2 ^ 53 is a double.
pub record IsRounding (doubles : Doubles) : Type 0 where
  pub unit_pos : 0 < doubles.unit
  pub monotone : {m n : ℕ} → m ≤ n → doubles.round m ≤ doubles.round n
  pub whole : (n : ℕ) → n < 2 ^ 53 → doubles.round (n * doubles.unit) ≡ n * doubles.unit

div_between :
    (unit s a b : ℕ) → 0 < unit → a * unit ≤ s → s ≤ b * unit → (a ≤ s / unit) × (s / unit ≤ b)
div_between unit s a b p low high =
    let below : s / unit < b + 1 = (div-lt_iff_lt-mul p).1 (grind arith) in
    ((le-div_iff_mul-le p).1 low, omega arith)

module _ (doubles : Doubles) (rounding : IsRounding doubles) where
  round_between :
      (a b s : ℕ)
      → b < 2 ^ 53
      → a ≤ b
      → a * doubles.unit ≤ s
      → s ≤ b * doubles.unit
      → (a * doubles.unit ≤ doubles.round s) × (doubles.round s ≤ b * doubles.unit)
  round_between a b s small le low high =
      let from : doubles.round (a * doubles.unit) ≤ doubles.round s = rounding.monotone low in
      let to : doubles.round s ≤ doubles.round (b * doubles.unit) = rounding.monotone high in
      let whole_a = rounding.whole a (omega (arith, le, small)) in
      let whole_b = rounding.whole b small in (rw whole_a at from, rw whole_b at to)

  -- A retry waits at least for the capped exponential delay, and at most one base delay longer: for any rounding that
  -- keeps the order and the whole numbers, a random number below 1, and delays whose sum is below 2 ^ 53.
  pub calculate_backoff_bounds :
      (r attempt base max_backoff : ℕ)
      → r < doubles.unit
      → min max_backoff (base * 2 ^ attempt) + base < 2 ^ 53
      → let d = calculate_backoff doubles r attempt base max_backoff in
        let delay = min max_backoff (base * 2 ^ attempt) in (delay ≤ d) × (d ≤ delay + base)
  unfolding calculate_backoff capped
  calculate_backoff_bounds r attempt base max_backoff h small =
      let delay = min max_backoff (base * 2 ^ attempt) in
      let jittered : jitter doubles r base ≤ base * doubles.unit =
        (round_between 0 base (r * base) (omega (arith, small)) (omega arith) (omega arith)
          (jitter_below r base doubles.unit h)).1 in
      let sum = delay * doubles.unit + jitter doubles r base in
      let low : delay * doubles.unit ≤ sum = omega arith in
      let high : sum ≤ (delay + base) * doubles.unit =
        sum_below delay base doubles.unit (jitter doubles r base) jittered in
      let (from, to) = round_between delay (delay + base) sum small (omega arith) low high in
      div_between doubles.unit (doubles.round sum) delay (delay + base) rounding.unit_pos from to
    where
      jitter_below : (r base unit : ℕ) → r < unit → r * base ≤ base * unit
      jitter_below r base unit h = grind arith

      sum_below : (a b unit j : ℕ) → j ≤ b * unit → a * unit + j ≤ (a + b) * unit
      sum_below a b unit j h = grind arith
