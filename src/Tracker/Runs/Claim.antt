-- ===== src/Tracker/Runs/Claim.antt =====
-- Claims among the operations of src/db/tracker-runs.ts: the ticks of the orchestrator, the workers
-- and the routes interleave as a list of operations.
use nano_symphony.Common.{
  ℕ, suc, ◌≤◌, String, ◌≡◌, refl, sym, ap, ◌∙◌, subst, ◌≢◌, ◌⊎◌, inl, inr, Bool, true, false, ◌&&◌,
  Option, none, some, List, [], ◌∷◌, arith, ◌==◌, eq_iff, eq_refl, if◌then◌else◌, Bool-cases,
  Option-cases, one_of, All,
}
use nano_symphony.Tracker.Types.{Run, Database}
use nano_symphony.Tracker.Runs.{
  get_run, release_issue, update_last_issue_state, schedule_retry, update_heartbeat,
  set_heartbeat_timeout, update_token_stats, update_workspace_path, mark_current_attempt,
  update_agent_pid, claim_issue, is_claimable, fresh_run, take_run,
}
use nano_symphony.Tracker.Removal.{delete_issue}
use nano_symphony.Tracker.Removal.Laws.{get_run-delete_issue}
use nano_symphony.Tracker.Runs.Laws.{
  get_run-release_issue, get_run-update_last_issue_state, get_run-schedule_retry,
  get_run-update_heartbeat, get_run-set_heartbeat_timeout, get_run-update_token_stats,
  get_run-update_workspace_path, get_run-mark_current_attempt, get_run-update_agent_pid,
  claim_issue-free, claim_issue-held, IsFree, Updates, claimed_run,
}

-- the operations of the tracker that write a run; deleteIssue removes it
pub data RunOp : Type 0 where
  claim : String → ℕ → ℕ → RunOp
  release : String → String → RunOp
  retry : String → ℕ → ℕ → RunOp
  note_state : String → String → RunOp
  beat : String → ℕ → RunOp
  set_timeout : String → ℕ → RunOp
  count_tokens : String → ℕ → ℕ → ℕ → RunOp
  set_workspace : String → String → Bool → RunOp
  mark_attempt : String → ℕ → RunOp
  set_pid : String → Option ℕ → RunOp
  remove : String → RunOp

unfoldable pub exec : RunOp → Database → Database
exec (claim u a now) d = (claim_issue u a now d).0
exec (release u s) d = release_issue u s d
exec (retry u ts a) d = schedule_retry u ts a d
exec (note_state u s) d = update_last_issue_state u s d
exec (beat u ts) d = update_heartbeat u ts d
exec (set_timeout u ms) d = set_heartbeat_timeout u ms d
exec (count_tokens u input output total) d = update_token_stats u input output total d
exec (set_workspace u path managed) d = update_workspace_path u path managed d
exec (mark_attempt u a) d = mark_current_attempt u a d
exec (set_pid u pid) d = update_agent_pid u pid d
exec (remove u) d = (delete_issue u d).0

-- whether the operation is a claim of the issue, and succeeds
unfoldable pub wins : String → RunOp → Database → Bool
wins u (claim k a now) d = (k == u) && (claim_issue k a now d).1
wins u _ d = false

unfoldable pub count_wins : String → List RunOp → Database → ℕ
unfolding exec wins
count_wins u [] d = 0
count_wins u (o ∷ os) d =
    let rest = count_wins u os (exec o d) in if wins u o d then suc rest else rest

abbrev pub frees : String → Bool
frees s = one_of s ("released" ∷ "retry_queued" ∷ [])

-- The operation neither gives the run of the issue back nor removes it.
abbrev pub Keeps : String → RunOp → Type 0
Keeps u (release k s) = (k ≢ u) ⊎ (frees s ≡ false)
Keeps u (retry k ts a) = k ≢ u
Keeps u (remove k) = k ≢ u
Keeps u _ = Unit

abbrev pub IsHeld : String → Database → Type 0
IsHeld u d = (r : Run) × (get_run u d ≡ some r) × (is_claimable r ≡ false)

pub Free-or-Held : (u : String) (d : Database) → IsFree u d ⊎ IsHeld u d
Free-or-Held u d = elim (Option-cases (get_run u d)) [
  | inl e ↦ inl (inl e)
  | inr (r, e) ↦ elim (Bool-cases (is_claimable r)) [
    | inl c ↦ inl (inr (r, e, c))
    | inr c ↦ inr (r, e, c)
  ]
]

pub held-not-IsFree :
    (u : String) (d : Database) (r : Run)
    → get_run u d ≡ some r
    → is_claimable r ≡ false
    → ¬ IsFree u d
held-not-IsFree u d r e c (inl f) = cc
held-not-IsFree u d r e c (inr (x, f, b)) = ground arith

claimed_run-held :
    (u : String) (a now : ℕ) (o : Option Run) → is_claimable (claimed_run u a now o) ≡ false
unfolding fresh_run take_run
claimed_run-held u a now none = refl
claimed_run-held u a now (some r) = refl

Updates-IsHeld :
    (u k : String) (op : Database → Database) (f : Run → Run) (d : Database)
    → Updates op k f
    → ((r : Run) → k ≡ u → is_claimable r ≡ false → is_claimable (f r) ≡ false)
    → IsHeld u d
    → IsHeld u (op d)
Updates-IsHeld u k op f d up stays (r, e, c) = elim (Bool-cases (k == u)) [
  | inl p ↦ (f r, up u d ∙ rw (p, e), stays r ((eq_iff k u).0 p) c)
  | inr p ↦ (r, up u d ∙ rw (p, e), c)
]

claim_issue-IsHeld :
    (u k : String) (a now : ℕ) (d : Database) → IsHeld u d → IsHeld u (claim_issue k a now d).0
claim_issue-IsHeld u k a now d (r, e, c) = elim (Free-or-Held k d) [
  | inl free ↦ elim (Bool-cases (k == u)) [
    | inl p ↦ absurd (held-not-IsFree u d r e c (subst (λ x. IsFree x d) ((eq_iff k u).0 p) free))
    | inr p ↦ (r, (claim_issue-free k a now d free).1 u ∙ rw (p, e), c)
  ]
  | inr (x, f, b) ↦ rw (claim_issue-held k a now d x f b) (r, e, c)
]

exec-IsHeld : (u : String) (o : RunOp) (d : Database) → Keeps u o → IsHeld u d → IsHeld u (exec o d)
unfolding exec
exec-IsHeld u (claim k a now) d _ h = claim_issue-IsHeld u k a now d h
exec-IsHeld u (release k s) d (inl ne) h =
    Updates-IsHeld u k (release_issue k s) _ d (get_run-release_issue k s) (λ r p c. absurd (ne p))
      h
exec-IsHeld u (release k s) d (inr kept) h =
    Updates-IsHeld u k (release_issue k s) _ d (get_run-release_issue k s) (λ r p c. kept) h
exec-IsHeld u (retry k ts a) d ne h =
    Updates-IsHeld u k (schedule_retry k ts a) _ d (get_run-schedule_retry k ts a)
      (λ r p c. absurd (ne p)) h
exec-IsHeld u (note_state k s) d _ h =
    Updates-IsHeld u k (update_last_issue_state k s) _ d (get_run-update_last_issue_state k s)
      (λ r p c. c) h
exec-IsHeld u (beat k ts) d _ h =
    Updates-IsHeld u k (update_heartbeat k ts) _ d (get_run-update_heartbeat k ts) (λ r p c. c) h
exec-IsHeld u (set_timeout k ms) d _ h =
    Updates-IsHeld u k (set_heartbeat_timeout k ms) _ d (get_run-set_heartbeat_timeout k ms)
      (λ r p c. c) h
exec-IsHeld u (count_tokens k i o t) d _ h =
    Updates-IsHeld u k (update_token_stats k i o t) _ d (get_run-update_token_stats k i o t)
      (λ r p c. c) h
exec-IsHeld u (set_workspace k path m) d _ h =
    Updates-IsHeld u k (update_workspace_path k path m) _ d (get_run-update_workspace_path k path m)
      (λ r p c. c) h
exec-IsHeld u (mark_attempt k a) d _ h =
    Updates-IsHeld u k (mark_current_attempt k a) _ d (get_run-mark_current_attempt k a)
      (λ r p c. c) h
exec-IsHeld u (set_pid k pid) d _ h =
    Updates-IsHeld u k (update_agent_pid k pid) _ d (get_run-update_agent_pid k pid) (λ r p c. c) h
exec-IsHeld u (remove k) d ne (r, e, c) = (r, get_run-delete_issue k u d ne ∙ e, c)

wins-IsHeld : (u : String) (o : RunOp) (d : Database) → IsHeld u d → wins u o d ≡ false
unfolding wins
wins-IsHeld u (claim k a now) d (r, e, c) = elim (Bool-cases (k == u)) [
  | inl p ↦ rw p (
      ap (λ x. x.1)
        (claim_issue-held k a now d r (subst (λ x. get_run x d ≡ some r) (sym ((eq_iff k u).0 p)) e)
          c))
  | inr p ↦ rw p
]
wins-IsHeld u o d h = refl

-- An operation by which the issue is claimed leaves it held.
wins-then-IsHeld : (u : String) (o : RunOp) (d : Database) → wins u o d ≡ true → IsHeld u (exec o d)
unfolding wins exec
wins-then-IsHeld u (claim k a now) d w = elim (Bool-cases (k == u)) [
  | inl p ↦ elim (Free-or-Held k d) [
    | inl free ↦ (
      claimed_run k a now (get_run k d),
      (claim_issue-free k a now d free).1 u ∙ rw p,
      claimed_run-held k a now (get_run k d),
    )
    | inr (x, f, b) ↦ ground (arith, claim_issue-held k a now d x f b)
  ]
  | inr p ↦ ground arith
]
wins-then-IsHeld u o d w = cc

count_wins-IsHeld :
    (u : String) (os : List RunOp) (d : Database)
    → All (Keeps u) os
    → IsHeld u d
    → count_wins u os d ≡ 0
unfolding count_wins
count_wins-IsHeld u [] d ks h = refl
count_wins-IsHeld u (o ∷ os) d ks h =
    rw (wins-IsHeld u o d h) (count_wins-IsHeld u os (exec o d) ks.1 (exec-IsHeld u o d ks.0 h))

-- In any interleaving of the operations of the tracker that write runs and of deletions of issues, in which the
-- run of the issue is never set to a state that can be claimed and is never removed, at most one claim of the
-- issue succeeds.
pub count_wins-le-one :
    (u : String) (os : List RunOp) (d : Database) → All (Keeps u) os → count_wins u os d ≤ 1
unfolding count_wins
count_wins-le-one u [] d ks = omega arith
count_wins-le-one u (o ∷ os) d ks = elim (Bool-cases (wins u o d)) [
  | inl w ↦ rw (w, count_wins-IsHeld u os (exec o d) ks.1 (wins-then-IsHeld u o d w)) (omega arith)
  | inr w ↦ rw w (count_wins-le-one u os (exec o d) ks.1)
]

-- A claim that a run can take succeeds, and then every later claim in such an interleaving fails.
pub claim-exclusive :
    (u : String) (a now : ℕ) (os : List RunOp) (d : Database)
    → IsFree u d
    → All (Keeps u) os
    → ((claim_issue u a now d).1 ≡ true)
      × (count_wins u os (claim_issue u a now d).0 ≡ 0)
      × IsHeld u (claim_issue u a now d).0
unfolding wins exec
claim-exclusive u a now os d free ks =
    let won = (claim_issue-free u a now d free).0 in
    let held : IsHeld u (claim_issue u a now d).0 =
      wins-then-IsHeld u (claim u a now) d (rw (eq_refl u, won)) in
    (won, count_wins-IsHeld u os (claim_issue u a now d).0 ks held, held)
