-- ===== src/Plan/Tick/Flights.antt =====
-- The plan runs in flight: the guard `inFlight` of src/orchestrator/plan-tick.ts.
use nano_symphony.Common.{
  ℕ, String, ◌≡◌, inl, inr, Bool, true, false, List, [], ◌∷◌, ◌++◌, arith, Bool-cases, one_of, All,
  All-append,
}
use nano_symphony.Tracker.Types.{PlanRun, Database}
use nano_symphony.Tracker.PlanRuns.{set_plan_run_running}
use nano_symphony.Plan.Tick.{
  Flight, start_dry_run, start_run, start_each, begin, flight, tick_pending_plans,
  tick_approved_plans, resume_running_plans,
}

one_of-append : (s : String) (xs ys : List String) → one_of s xs ≡ true → one_of s (xs ++ ys) ≡ true
one_of-append s [] ys h = cc
one_of-append s (x ∷ xs) ys h = ground (arith, one_of-append s xs ys)

-- What was started was not in flight at first, and what was is so still.
record IsFresh (before : List String) (f : Flight) : Type 0 where
  fresh : All (λ id. one_of id before ≡ false) f.started
  still : (id : String) → one_of id before ≡ true → one_of id f.in_flight ≡ true

was_out : (b : Bool) {c : Bool} → c ≡ false → (b ≡ true → c ≡ true) → b ≡ false
was_out b out still = ground arith

begin-IsFresh :
    (before : List String) (r : PlanRun) (f : Flight)
    → one_of r.id f.in_flight ≡ false
    → IsFresh before f
    → IsFresh before (begin r f)
unfolding begin
begin-IsFresh before r f out h = record {
  fresh =
      All-append _ f.started (r.id ∷ []) h.fresh
        (was_out (one_of r.id before) out (h.still r.id), tt);
  still = λ id e. one_of-append id f.in_flight (r.id ∷ []) (h.still id e);
}

start_dry_run-IsFresh :
    (before : List String) (r : PlanRun) (f : Flight)
    → IsFresh before f
    → IsFresh before (start_dry_run r f)
unfolding start_dry_run
start_dry_run-IsFresh before r f h = elim (Bool-cases (one_of r.id f.in_flight)) [
  | inl e ↦ rw (start_dry_run, e) h
  | inr e ↦ rw (start_dry_run, e) (begin-IsFresh before r f e h)
]

start_run-IsFresh :
    (now : ℕ) (before : List String) (r : PlanRun) (f : Flight)
    → IsFresh before f
    → IsFresh before (start_run now r f)
unfolding start_run
start_run-IsFresh now before r f h = elim (Bool-cases (one_of r.id f.in_flight)) [
  | inl e ↦ rw (start_run, e) h
  | inr e ↦
      rw (start_run, e)
        (begin-IsFresh before r (record f { database = set_plan_run_running r.id now f.database }) e
          (record { fresh = h.fresh; still = h.still }))
]

start_each-IsFresh :
    (before : List String) (start : PlanRun → Flight → Flight)
    → ((r : PlanRun) (f : Flight) → IsFresh before f → IsFresh before (start r f))
    → (rs : List PlanRun) (f : Flight) → IsFresh before f
    → IsFresh before (start_each start rs f)
unfolding start_each
start_each-IsFresh before start keeps [] f h = h
start_each-IsFresh before start keeps (r ∷ rs) f h =
    start_each-IsFresh before start keeps rs (start r f) (keeps r f h)

at_first : (before : List String) (d : Database) → IsFresh before (flight before d)
at_first before d = record { fresh = tt; still = λ id e. e }

-- Neither the loop of the dry runs nor those of the approved and of the running plan runs start a plan run that
-- is in flight when the loop begins, and all three keep in flight what was.
pub ticks-IsFresh :
    (now : ℕ) (in_flight : List String) (d : Database)
    → let dry = tick_pending_plans in_flight d in
      let real = tick_approved_plans now in_flight d in
      let resumed = resume_running_plans now in_flight d in
      All (λ id. one_of id in_flight ≡ false) dry.started
      × All (λ id. one_of id in_flight ≡ false) real.started
      × All (λ id. one_of id in_flight ≡ false) resumed.started
      × ((id : String)
          → one_of id in_flight ≡ true
          → (one_of id dry.in_flight ≡ true)
            × (one_of id real.in_flight ≡ true)
            × (one_of id resumed.in_flight ≡ true))
unfolding tick_pending_plans tick_approved_plans resume_running_plans
ticks-IsFresh now in_flight d =
    let dry =
      start_each-IsFresh in_flight start_dry_run (start_dry_run-IsFresh in_flight) _ _
        (at_first in_flight d) in
    let real =
      start_each-IsFresh in_flight (start_run now) (start_run-IsFresh now in_flight) _ _
        (at_first in_flight d) in
    let resumed =
      start_each-IsFresh in_flight (start_run now) (start_run-IsFresh now in_flight) _ _
        (at_first in_flight d) in
    (
      dry.fresh,
      real.fresh,
      resumed.fresh,
      λ id e. (dry.still id e, real.still id e, resumed.still id e),
    )
