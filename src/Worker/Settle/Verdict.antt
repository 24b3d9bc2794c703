-- ===== src/Worker/Settle/Verdict.antt =====
-- The branches of the transaction in runWorker, src/orchestrator/worker.ts, and the writes of each.
use nano_symphony.Common.{
  ℕ, ◌≤◌, ◌<◌, String, ◌≡◌, refl, ◌≢◌, inl, inr, Bool, true, false, ◌&&◌, Option, arith, ◌==◌,
  eq_iff, ltb, if◌then◌else◌, ltb→lt, lt→ltb, Bool-cases, get_or,
}
use nano_symphony.Tracker.Types.{Issue, Database}
use nano_symphony.Worker.Env.{Env}
use nano_symphony.Worker.Override.{Report}
use nano_symphony.Worker.Settle.{
  Policy, Final, settle, finish_success, finish_handoff, retry_or_block, trip, abandon, fall_back,
  move_to_target,
}

other_text : {s t : String} (v : String) → s ≡ t → (t == v) ≡ false → (s == v) ≡ false
other_text v e f = rw e f

not_below : (m n : ℕ) → n ≤ m → ltb m n ≡ false
not_below m n h = ground arith

-- which of the five applies
pub data Verdict (policy : Policy) (attempt : ℕ) (r : Report) (tripped : Bool) : Type 0 where
  accepted : r.semantics ≡ "success" → Verdict policy attempt r tripped
  handed_off : r.semantics ≡ "handoff" → Verdict policy attempt r tripped
  tried_again :
      r.semantics ≡ "needs_retry"
      → tripped ≡ false
      → attempt < policy.max_retries
      → Verdict policy attempt r tripped
  broken :
      r.semantics ≢ "success"
      → r.semantics ≢ "handoff"
      → tripped ≡ true
      → Verdict policy attempt r tripped
  given_up :
      r.semantics ≢ "success"
      → r.semantics ≢ "handoff"
      → tripped ≡ false
      → (r.semantics ≡ "needs_retry" → policy.max_retries ≤ attempt)
      → Verdict policy attempt r tripped

pub text_false : (s t : String) → s ≢ t → (s == t) ≡ false
text_false s t h = ground (arith, eq_iff s t)

pub text_ne : (s t : String) → (s == t) ≡ false → s ≢ t
text_ne s t h e = ground (arith, eq_iff s t)

last-Verdict :
    (policy : Policy) (attempt : ℕ) (r : Report) (tripped : Bool)
    → r.semantics ≢ "success"
    → r.semantics ≢ "handoff"
    → Verdict policy attempt r tripped
last-Verdict policy attempt r true a b = broken a b refl
last-Verdict policy attempt r false a b = elim (Bool-cases (r.semantics == "needs_retry")) [
  | inl e ↦ elim (Bool-cases (ltb attempt policy.max_retries)) [
    | inl lt ↦ tried_again ((eq_iff _ _).0 e) refl (ltb→lt _ _ lt)
    | inr ge ↦ given_up a b refl (λ h. ground arith)
  ]
  | inr e ↦ given_up a b refl (λ h. absurd (text_ne _ _ e h))
]

-- Every report gets one of them.
pub Verdict-of :
    (policy : Policy) (attempt : ℕ) (r : Report) (tripped : Bool) → Verdict policy attempt r tripped
Verdict-of policy attempt r tripped = elim (Bool-cases (r.semantics == "success")) [
  | inl e ↦ accepted ((eq_iff _ _).0 e)
  | inr a ↦ elim (Bool-cases (r.semantics == "handoff")) [
    | inl e ↦ handed_off ((eq_iff _ _).0 e)
    | inr b ↦ last-Verdict policy attempt r tripped (text_ne _ _ a) (text_ne _ _ b)
  ]
]

module _ (env : Env) (policy : Policy) (u : String) (attempt : ℕ) (issue : Issue) where
  -- the writes that a verdict stands for
  unfoldable pub carry_out :
      (r : Report) (target : Option String) {tripped : Bool}
      → Verdict policy attempt r tripped
      → Database
      → Final × Database
  carry_out r target (accepted _) d =
      finish_success env policy u attempt issue r (get_or target issue.state) d
  carry_out r target (handed_off _) d =
      finish_handoff env policy u attempt issue r (get_or target issue.state) d
  carry_out r target (tried_again _ _ _) d = retry_or_block env policy u attempt issue r d
  carry_out r target (broken _ _ _) d =
      trip env policy u attempt issue (fall_back env policy u attempt issue r target d)
  carry_out r target (given_up _ _ _ _) d =
      abandon env policy u attempt issue r (get_or target issue.state)
        (fall_back env policy u attempt issue r target d)

  pub settle-carry_out :
      (r : Report) (target : Option String) (tripped : Bool) (d : Database)
      (v : Verdict policy attempt r tripped)
      → settle env policy u attempt issue r target tripped d
        ≡ carry_out r target v (move_to_target env policy u attempt issue target d)
  unfolding settle carry_out
  settle-carry_out r target tripped d (accepted e) = rw ((eq_iff _ _).1 e)
  settle-carry_out r target tripped d (handed_off e) =
      rw (other_text "success" e refl, (eq_iff _ _).1 e)
  settle-carry_out r target tripped d (tried_again e f lt) =
      rw (
        other_text "success" e refl,
        other_text "handoff" e refl,
        (eq_iff _ _).1 e,
        f,
        lt→ltb _ _ lt,
      )
  settle-carry_out r target tripped d (broken a b f) =
      rw (text_false _ _ a, text_false _ _ b, f) (stop (r.semantics == "needs_retry"))
    where
      stop :
          (x : Bool)
          → (if (x && false) && ltb attempt policy.max_retries
              then retry_or_block env policy u attempt issue r
                  (move_to_target env policy u attempt issue target d)
              else trip env policy u attempt issue (
                  fall_back env policy u attempt issue r target
                    (move_to_target env policy u attempt issue target d)))
            ≡ trip env policy u attempt issue (
                fall_back env policy u attempt issue r target
                  (move_to_target env policy u attempt issue target d))
      stop true = refl
      stop false = refl
  settle-carry_out r target tripped d (given_up a b f g) =
      rw (text_false _ _ a, text_false _ _ b, f)
        (elim (Bool-cases (r.semantics == "needs_retry")) [
          | inl e ↦ rw (e, not_below _ _ (g ((eq_iff _ _).0 e)))
          | inr e ↦ rw e
        ])
