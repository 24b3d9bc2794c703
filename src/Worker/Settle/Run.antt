-- ===== src/Worker/Settle/Run.antt =====
-- Where the transaction of runWorker in src/orchestrator/worker.ts leaves the run.
use mathlib.Core.Option
use nano_symphony.Common.{
  ℕ, ◌+◌, ◌<◌, String, ◌≡◌, refl, ap, ◌∙◌, inl, inr, Bool, false, ◌&&◌, not, Option, some, ◌==◌,
  Bool-cases, Option-cases, get_or, is_some,
}
use nano_symphony.Tracker.Types.{Issue, Run, Database}
use nano_symphony.Tracker.Issues.{get_last_blocker_fingerprint}
use nano_symphony.Tracker.Runs.{get_run}
use nano_symphony.Worker.Env.{Env}
use nano_symphony.Worker.Completion.{truthy}
use nano_symphony.Worker.Override.{Report}
use nano_symphony.Worker.Settle.{
  Policy, settle, retry_or_block, repeated, move_to_target, fall_back, blocked_state, delay,
}
use nano_symphony.Worker.Settle.Guards.{
  given_back, get_run-move_to, finish_success_view, finish_handoff_view, abandon_view, trip_view,
  short_circuit_view, plan_retry_run, queued,
}
use nano_symphony.Worker.Settle.Verdict.{
  Verdict, accepted, handed_off, tried_again, broken, given_up, Verdict-of, carry_out,
  settle-carry_out,
}

pub map-some {ℓ κ} :
    {A : Type ℓ} {B : Type κ} (f : A → B) {o : Option A} {a : A}
    → o ≡ some a
    → Option.map f o ≡ some (f a)
map-some f e = rw e

module _ (env : Env) (policy : Policy) (u : String) (attempt : ℕ) (issue : Issue) where
  pub get_run-move_to_target :
      (target : Option String) (d : Database)
      → get_run u (move_to_target env policy u attempt issue target d) ≡ get_run u d
  unfolding move_to_target
  get_run-move_to_target target d = elim (Option-cases (truthy target)) [
    | inl e ↦ rw (e, move_to_target)
    | inr (s, e) ↦ rw (e, move_to_target) (get_run-move_to env u s u issue d)
  ]

  pub get_run-fall_back :
      (r : Report) (target : Option String) (d : Database)
      → get_run u (fall_back env policy u attempt issue r target d) ≡ get_run u d
  unfolding fall_back
  get_run-fall_back r target d =
      elim (Bool-cases (not (is_some (truthy target)) && r.semantics == "needs_retry")) [
        | inl e ↦ rw e (get_run-move_to env u _ u issue d)
        | inr e ↦ rw e
      ]

  -- The three ways in which a settled run can end.
  pub data Ending (r : Report) (target : Option String) (tripped : Bool) (x : Run) : Type 0 where
    freed : x.last_state ≡ "released" → Ending r target tripped x
    passed_on :
        r.semantics ≡ "handoff"
        → x.last_state ≡ get_or target issue.state
        → Ending r target tripped x
    waits :
        r.semantics ≡ "needs_retry"
        → tripped ≡ false
        → attempt < policy.max_retries
        → x.last_state ≡ "retry_queued"
        → x.next_attempt ≡ attempt + 1
        → x.next_due_ts ≡ some (env.now + delay env policy u attempt issue)
        → Ending r target tripped x

  retry_or_block_run :
      (r : Report) (target : Option String) (d : Database) (x : Run)
      → r.semantics ≡ "needs_retry"
      → attempt < policy.max_retries
      → get_run u d ≡ some x
      → (y : Run) × (get_run u (retry_or_block env policy u attempt issue r d).1 ≡ some y)
        × Ending r target false y
  unfolding retry_or_block
  retry_or_block_run r target d x e lt h =
      elim (Option-cases (
        repeated env policy u attempt issue (truthy r.fingerprint)
          (get_last_blocker_fingerprint u d))) [
            | inl a ↦ (
              queued env policy u attempt issue x,
              rw (a, retry_or_block)
                  (plan_retry_run env policy u attempt issue r (truthy r.fingerprint) d
                    ∙ map-some _ h),
              waits e refl lt refl refl refl,
            )
            | inr (f, a) ↦ (
              given_back "released" (blocked_state policy.transitions) x,
              rw (a, retry_or_block)
                  ((short_circuit_view env policy u attempt issue f d).0 ∙ map-some _ h),
              freed refl,
            )
          ]

  carry_out_run :
      (r : Report) (target : Option String) (tripped : Bool) (v : Verdict policy attempt r tripped)
      (d : Database) (x : Run)
      → get_run u d ≡ some x
      → (y : Run) × (get_run u (carry_out env policy u attempt issue r target v d).1 ≡ some y)
        × Ending r target tripped y
  unfolding carry_out
  carry_out_run r target tripped (accepted e) d x h = (
    given_back "released" (get_or target issue.state) x,
    (finish_success_view env policy u attempt issue r _ d).0 ∙ map-some _ h,
    freed refl,
  )
  carry_out_run r target tripped (handed_off e) d x h = (
    given_back (get_or target issue.state) (get_or target issue.state) x,
    (finish_handoff_view env policy u attempt issue r _ d).0 ∙ map-some _ h,
    passed_on e refl,
  )
  carry_out_run r target tripped (tried_again e f lt) d x h =
      rw f (retry_or_block_run r target d x e lt h)
  carry_out_run r target tripped (broken a b f) d x h = (
    given_back "released" (blocked_state policy.transitions) x,
    (trip_view env policy u attempt issue (fall_back env policy u attempt issue r target d)).0
        ∙ map-some _ (get_run-fall_back r target d ∙ h),
    freed refl,
  )
  carry_out_run r target tripped (given_up a b f g) d x h = (
    given_back "released" (get_or target issue.state) x,
    (abandon_view env policy u attempt issue r _
          (fall_back env policy u attempt issue r target d)).0
        ∙ map-some _ (get_run-fall_back r target d ∙ h),
    freed refl,
  )

  -- However an attempt went, its run is left released, or in the state of a handoff, or queued for a retry; a
  -- retry is queued only for an attempt that asked for it, under the limit of retries and with the breaker
  -- shut, as the next attempt and after the delay of the backoff.
  pub settle_run :
      (r : Report) (target : Option String) (tripped : Bool) (d : Database) (x : Run)
      → get_run u d ≡ some x
      → (y : Run) × (get_run u (settle env policy u attempt issue r target tripped d).1 ≡ some y)
        × Ending r target tripped y
  settle_run r target tripped d x h =
      let v = Verdict-of policy attempt r tripped in
      let (y, e, ending) =
        carry_out_run r target tripped v (move_to_target env policy u attempt issue target d) x
          (get_run-move_to_target target d ∙ h) in
      (
        y,
        ap (λ p. get_run u p.1) (settle-carry_out env policy u attempt issue r target tripped d v)
            ∙ e,
        ending,
      )
