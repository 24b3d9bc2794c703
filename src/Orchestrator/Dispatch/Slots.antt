-- ===== src/Orchestrator/Dispatch/Slots.antt =====
-- The slots of one tick: tick and class Semaphore of src/orchestrator/index.ts.
use nano_symphony.Common.{
  ℕ, ◌+◌, ◌-◌, ◌≤◌, ◌<◌, min, ◌≡◌, refl, Bool, true, false, List, [], ◌∷◌, arith, nat_eq,
  if◌then◌else◌, lt→ltb, length, length-append, length-take,
}
use nano_symphony.Tracker.Types.{Database}
use nano_symphony.Semaphore.{Semaphore, set_max, available, acquire}
use nano_symphony.Orchestrator.Stale.{release_stale_runs}
use nano_symphony.Orchestrator.Dispatch.{
  Job, Scheduler, Progress, enlist, launch, dispatch, dispatch_all, try_claim, to_dispatch, tick,
}

-- Nobody waits, and the slots in use are those of the workers started.
abbrev pub Accounts : {s : Scheduler} → ℕ → Progress s → Type 0
Accounts total p = (p.waiting ≡ []) × (length p.started + p.slots.count ≡ total)

length-to_dispatch : (now slots : ℕ) (d : Database) → length (to_dispatch now slots d) ≤ slots
unfolding to_dispatch
length-to_dispatch now slots d = below slots _ (length-take slots _)
  where
    below : (a b : ℕ) {c : ℕ} → c ≡ min a b → c ≤ a
    below a b e = rw e (omega arith)

module _ (s : Scheduler) where
  launch-Accounts :
      (job : Job) (c : Database × Bool) (p : Progress s) (total : ℕ)
      → 0 < p.slots.count
      → Accounts total p
      → Accounts total (launch s job c p) × (p.slots.count ≤ (launch s job c p).slots.count + 1)
  unfolding launch enlist acquire
  launch-Accounts job (d, false) p total room (w, e) = ((w, e), omega arith)
  launch-Accounts job (d, true) p total room (w, e) =
      taken (acquire (length p.started + length p.waiting) p.slots) (granted _ p.slots room)
    where
      granted :
          (k : ℕ) (sem : Semaphore)
          → 0 < sem.count
          → acquire k sem ≡ (record sem { count = sem.count - 1 }, true)
      granted k sem h = rw (lt→ltb 0 sem.count h) refl

      taken :
          (a : Semaphore × Bool)
          → a ≡ (record p.slots { count = p.slots.count - 1 }, true)
          → Accounts total (enlist s job a (record p { database = d }))
            × (p.slots.count ≤ (enlist s job a (record p { database = d })).slots.count + 1)
      taken a same =
          rw same ((w, rw (length-append p.started (job ∷ [])) (omega arith)), omega arith)

  dispatch_all-Accounts :
      (jobs : List Job) (p : Progress s) (total : ℕ)
      → length jobs ≤ p.slots.count
      → Accounts total p
      → Accounts total (dispatch_all s jobs p)
  unfolding dispatch_all dispatch
  dispatch_all-Accounts [] p total room acc = acc
  dispatch_all-Accounts (job ∷ jobs) p total room acc =
      let (next, bound) =
        launch-Accounts job (try_claim s job p.database) p total (omega arith) acc in
      dispatch_all-Accounts jobs _ total (omega arith) next

  -- In a tick no worker waits for a slot, and the workers started together with the slots still free are as
  -- many as the slots that were free after the limit was set.
  pub tick-Accounts :
      (max_concurrent : ℕ) (sem : Semaphore) (d : Database)
      → Accounts (available (set_max max_concurrent sem)) (tick s max_concurrent sem d)
  unfolding tick available
  tick-Accounts max_concurrent sem d = pick (nat_eq slots.count 0) d out (
      dispatch_all-Accounts jobs start slots.count (length-to_dispatch s.env.now slots.count d)
        (refl, omega arith))
    where
      slots : Semaphore
      slots = set_max max_concurrent sem

      idle : Database → Progress s
      idle x = record { database = x; slots = slots; started = []; waiting = [] }

      jobs : List Job
      jobs = to_dispatch s.env.now slots.count d

      start : Progress s
      start = idle (release_stale_runs s.env s.cancel_agent s.heartbeat_timeout_ms d)

      out : Progress s
      out = dispatch_all s jobs start

      pick :
          (b : Bool) (x : Database) (y : Progress s)
          → Accounts slots.count y
          → Accounts slots.count (if b then idle x else y)
      pick true x y h = (refl, omega arith)
      pick false x y h = h
