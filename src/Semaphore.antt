-- ===== src/Semaphore.antt =====
-- The counting semaphore that bounds the running agents: class Semaphore of
-- src/orchestrator/index.ts. A waiter is the number of its promise; limits are whole numbers.
pub mod Laws
pub mod Shrink
use nano_symphony.Common.{
  ℕ, ◌+◌, ◌-◌, Bool, true, false, List, [], ◌∷◌, ◌++◌, Option, none, some, ltb, if◌then◌else◌,
}
use nano_symphony.Common.Int.{ℤ, pos, sub_ℕ, ◌-ℤ◌, at_least_zero}

pub record Semaphore : Type 0 where
  pub limit : ℕ  -- `max`
  pub count : ℕ
  pub queue : List ℕ

-- what `status` reports
pub record Status : Type 0 where
  pub limit : ℕ
  pub available : ℕ
  pub active : ℤ

unfoldable pub new : ℕ → Semaphore
new limit = record { limit = limit; count = limit; queue = [] }

unfoldable pub available : Semaphore → ℕ
available s = s.count

-- `max - count`, which is negative where more slots are free than the limit
unfoldable pub active : Semaphore → ℤ
active s = sub_ℕ s.limit s.count

unfoldable pub status : Semaphore → Status
unfolding active
status s = record { limit = s.limit; available = s.count; active = active s }

abbrev clamp_limit : ℕ → ℕ
clamp_limit new_max = if ltb new_max 1 then 1 else new_max

unfoldable pub set_max : ℕ → Semaphore → Semaphore
unfolding active ◌-ℤ◌
set_max new_max s =
    let m = clamp_limit new_max in record s { limit = m; count = at_least_zero (pos m -ℤ active s) }

-- Whether the promise resolves at once; if not, the waiter is queued.
unfoldable pub acquire : ℕ → Semaphore → Semaphore × Bool
acquire waiter s =
    if ltb 0 s.count
    then (record s { count = s.count - 1 }, true)
    else (record s { queue = s.queue ++ waiter ∷ [] }, false)

hand_over : List ℕ → Semaphore → Semaphore × Option ℕ
hand_over [] s = (record s { count = s.count + 1 }, none)
hand_over (next ∷ rest) s = (record s { queue = rest }, some next)

-- The waiter whose promise it resolves, if one waits.
unfoldable pub release : Semaphore → Semaphore × Option ℕ
unfolding hand_over
release s = hand_over s.queue s
