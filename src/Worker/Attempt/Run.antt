-- ===== src/Worker/Attempt/Run.antt =====
-- The run of an attempt that comes to its end in runWorker of src/orchestrator/worker.ts.
use nano_symphony.Common.{
  ℕ, String, ◌≡◌, inl, inr, Option, none, some, arith, Option-cases, is_some,
}
use nano_symphony.Tracker.Types.{Issue, Run, Database}
use nano_symphony.Tracker.Runs.{get_run}
use nano_symphony.Worker.Env.{Env}
use nano_symphony.Worker.Settle.{Policy}
use nano_symphony.Worker.Settle.Run.{Ending, settle_run}
use nano_symphony.Worker.Attempt.{Decision, Outcome, hear, decide, finish_attempt, is_tripped}
use nano_symphony.Worker.Attempt.Quiet.{IsQuiet-hear, IsQuiet-decide}

pub still_there :
    (u : String) (d d' : Database) (x : Run)
    → is_some (get_run u d') ≡ is_some (get_run u d)
    → get_run u d ≡ some x
    → (y : Run) × (get_run u d' ≡ some y)
still_there u d d' x same h = elim (Option-cases (get_run u d')) [
  | inl e ↦ absurd (clash (get_run u d') (get_run u d) same e h)
  | inr found ↦ found
]
  where
    clash : (o o' : Option Run) → is_some o ≡ is_some o' → o ≡ none → o' ≡ some x → ⊥
    clash o o' s e f = ground arith

module _ (env : Env) (policy : Policy) (normalize : String → String) (u : String) (attempt : ℕ)
    (issue : Issue) (o : Outcome) where
  -- what an attempt comes to, and the database at that point
  abbrev pub decision : Database → Decision × Database
  decision d =
      let (r, d1) = hear env policy normalize u attempt issue o d in
      decide env policy normalize u attempt issue o r d1

  -- However the agent ended and whatever it reported, a run that exists is found again after the attempt
  -- in one of three states: released, in the state of a handoff, or queued for the next attempt, which it is
  -- only where the attempt is taken to need a retry, retries are left and the breaker is shut.
  pub finish_attempt_run :
      (d : Database) (x : Run)
      → get_run u d ≡ some x
      → let (c, d2) = decision d in
        let (final, d') = finish_attempt env policy normalize u attempt issue o d in
        (y : Run) × (get_run u d' ≡ some y)
        × Ending env policy u attempt issue c.report c.target
            (is_tripped env u attempt policy.breaker_threshold c d2)
            y
  unfolding finish_attempt
  finish_attempt_run d x h =
      let heard = hear env policy normalize u attempt issue o d in
      let decided = decide env policy normalize u attempt issue o heard.0 heard.1 in
      let (x1, h1) =
        still_there u d heard.1 x (IsQuiet-hear env policy normalize u attempt issue o d).2 h in
      let (x2, h2) =
        still_there u heard.1 decided.1 x1
          (IsQuiet-decide env policy normalize u attempt issue o heard.0 heard.1).2 h1 in
      settle_run env policy u attempt issue decided.0.report decided.0.target
        (is_tripped env u attempt policy.breaker_threshold decided.0 decided.1) decided.1 x2 h2
