-- ===== src/Semaphore/Laws.antt =====
-- The semaphore in use, class Semaphore of src/orchestrator/index.ts: who asked, who was let in, and
-- how many run.
use mathlib.Core.List.{append_assoc, append-nil}
use nano_symphony.Common.{
  ℕ, ◌+◌, ◌-◌, ◌≤◌, ◌<◌, ◌≡◌, refl, ◌⊎◌, inl, inr, Bool, true, false, Option, none, some, List, [],
  ◌∷◌, ◌++◌, arith, ltb, if◌then◌else◌, ltb→lt, Bool-cases,
}
use nano_symphony.Semaphore.{Semaphore, new, set_max, acquire, release, clamp_limit, hand_over}

pub data Op : Type 0 where
  ask : ℕ → Op
  leave : Op
  resize : ℕ → Op

-- The semaphore with the agents that run, and the waiters in the order in which they asked and in
-- which they were let in.
pub record World : Type 0 where
  pub sem : Semaphore
  pub running : ℕ
  pub asked : List ℕ
  pub granted : List ℕ

unfoldable pub start : ℕ → World
unfolding new
start limit = record { sem = new limit; running = 0; asked = []; granted = [] }

enter : ℕ → Semaphore × Bool → World → World
enter waiter (s, true) w = record w {
  sem = s;
  running = w.running + 1;
  asked = w.asked ++ waiter ∷ [];
  granted = w.granted ++ waiter ∷ [];
}
enter waiter (s, false) w = record w { sem = s; asked = w.asked ++ waiter ∷ [] }

exit : Semaphore × Option ℕ → World → World
exit (s, none) w = record w { sem = s; running = w.running - 1 }
exit (s, some next) w = record w { sem = s; granted = w.granted ++ next ∷ [] }

-- Only a running agent leaves.
unfoldable pub step : World → Op → World
unfolding enter exit acquire release set_max
step w (ask waiter) = enter waiter (acquire waiter w.sem) w
step w leave = if ltb 0 w.running then exit (release w.sem) w else w
step w (resize m) = record w { sem = set_max m w.sem }

unfoldable pub run : World → List Op → World
run w [] = w
run w (o ∷ os) = run (step w o) os

-- Every slot is free or taken, nobody waits while a slot is free, and the waiters are let in in the
-- order in which they asked.
pub record IsBalanced (w : World) : Type 0 where
  pub conserved : w.sem.count + w.running ≡ w.sem.limit
  pub busy : (w.sem.queue ≡ []) ⊎ (w.sem.count ≡ 0)
  pub fifo : w.granted ++ w.sem.queue ≡ w.asked

-- A resize fits if the new limit is not below the running agents, and nobody waits.
abbrev pub Fits : World → Op → Type 0
Fits w (ask waiter) = Unit
Fits w leave = Unit
Fits w (resize m) = (w.running ≤ clamp_limit m) × (w.sem.queue ≡ [])

abbrev pub AllFit : World → List Op → Type 0
AllFit w [] = Unit
AllFit w (o ∷ os) = Fits w o × AllFit (step w o) os

start-IsBalanced : (limit : ℕ) → IsBalanced (start limit)
unfolding start new
start-IsBalanced limit = ground arith

-- The first of the queue joins the end of those let in.
append-hand_over :
    (granted : List ℕ) (queue : List ℕ) (next : ℕ)
    → (granted ++ next ∷ []) ++ queue ≡ granted ++ next ∷ queue
append-hand_over granted queue next = append_assoc granted (next ∷ []) queue

exit-IsBalanced :
    (w : World) (queue : List ℕ)
    → w.sem.queue ≡ queue
    → IsBalanced w
    → 0 < w.running
    → IsBalanced (exit (hand_over queue w.sem) w)
unfolding exit hand_over
exit-IsBalanced w [] e h p = ground arith
exit-IsBalanced w (next ∷ rest) e h p = ground (arith, append-hand_over w.granted rest next)

step-IsBalanced : (w : World) (o : Op) → IsBalanced w → Fits w o → IsBalanced (step w o)
unfolding step
step-IsBalanced w (ask waiter) h f = ground (
  arith,
  append_assoc w.granted w.sem.queue (waiter ∷ []),
  append-nil (w.granted ++ waiter ∷ []),
  append-nil w.granted,
)
step-IsBalanced w leave h f = elim (Bool-cases (ltb 0 w.running)) [
  | inl p ↦ rw p (exit-IsBalanced w w.sem.queue refl h (ltb→lt _ _ p))
  | inr p ↦ rw p h
]
step-IsBalanced w (resize m) h f = ground arith

run-IsBalanced : (w : World) (os : List Op) → IsBalanced w → AllFit w os → IsBalanced (run w os)
unfolding run
run-IsBalanced w [] h f = h
run-IsBalanced w (o ∷ os) h f = run-IsBalanced (step w o) os (step-IsBalanced w o h f.0) f.1

-- From a new semaphore, whatever agents ask and leave in whatever order, and whatever the new limits
-- are that fit: free and taken slots make up the limit, so no more agents run than it says; an agent
-- waits only while no slot is free; and the agents are let in in the order in which they asked.
pub run-start :
    (limit : ℕ) (os : List Op)
    → AllFit (start limit) os
    → let w = run (start limit) os in
      (w.sem.count + w.running ≡ w.sem.limit)
      × (w.running ≤ w.sem.limit)
      × ((w.sem.queue ≡ []) ⊎ (w.sem.count ≡ 0))
      × (w.granted ++ w.sem.queue ≡ w.asked)
run-start limit os f =
    let h = run-IsBalanced (start limit) os (start-IsBalanced limit) f in
    (h.conserved, omega arith, h.busy, h.fifo)
