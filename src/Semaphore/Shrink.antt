-- ===== src/Semaphore/Shrink.antt =====
-- A limit below the number of running agents: setMax of src/orchestrator/index.ts.
use nano_symphony.Common.{ℕ, zero, suc, ◌+◌, ◌≤◌, ◌<◌, ◌≡◌, [], arith}
use nano_symphony.Semaphore.{Semaphore, available, set_max, release}

-- `n` agents leave, one after the other.
pub release_times : ℕ → Semaphore → Semaphore
release_times zero s = s
release_times (suc n) s = release_times n (release s).0

release_times_lem :
    (n : ℕ) (s : Semaphore)
    → s.queue ≡ []
    → ((release_times n s).count ≡ s.count + n)
      × ((release_times n s).limit ≡ s.limit)
      × ((release_times n s).queue ≡ [])
unfolding release_times release
release_times_lem zero s e = ground arith
release_times_lem (suc n) s e = ground (arith, release_times_lem n (release s).0)

-- Where `n` agents run and nobody waits, and the limit is lowered to some `m` between 1 and `n`: once
-- the `n` agents have left, `n` slots are free although the limit is `m`, and setting the limit to `m`
-- again changes nothing, so from then on more agents may run at once than the limit allows.
pub shrink_overshoots :
    (n m : ℕ) (s : Semaphore)
    → s.count + n ≡ s.limit
    → s.queue ≡ []
    → 1 ≤ m
    → m < n
    → let t = release_times n (set_max m s) in
      (available t ≡ n) × (t.limit ≡ m) × (m < available t) × (set_max m t ≡ t)
unfolding set_max available
shrink_overshoots n m s full idle pos below =
    let left = release_times_lem n (set_max m s) idle in
    (ground arith, ground arith, ground arith, ground arith)
