-- ===== src/Tracker/Issues/Ready.antt =====
-- When an issue may be started, beside the condition of getCandidates in src/db/tracker-issues.ts.
use nano_symphony.Common.{
  All, Bool-cases, List, Option, Option-cases, String, [], any, arith, eq_iff, false, inl, inr,
  leb→le, none, refl, some, subst, true, ℕ, ◌==◌, ◌↔◌, ◌∷◌, ◌≡◌, ◌≢◌, ◌≤◌, ◌⊎◌,
}
use nano_symphony.Tracker.Types.{Issue, Run, Blocker, Database}
use nano_symphony.Tracker.Runs.{is_claimable, is_due, get_run}
use nano_symphony.Tracker.Issues.Candidates.{
  is_open_state, is_due_run, run_allows, blocks, is_candidate,
}

abbrev pub IsClosed : String → Type 0
IsClosed s = (s ≡ "done") ⊎ (s ≡ "cancelled")

-- No blocker of the issue is open.
abbrev pub IsUnblocked : String → List Blocker → Type 0
IsUnblocked uuid bs = All (λ b. b.issue_uuid ≡ uuid → IsClosed b.blocker_state) bs

-- A state in which an issue is neither over nor waits for somebody.
abbrev pub IsOpen : String → Type 0
IsOpen s =
    (s ≢ "done")
    × (s ≢ "cancelled")
    × (s ≢ "backlog")
    × (s ≢ "plan_review")
    × (s ≢ "awaiting_plan")
    × (s ≢ "blocked")

-- The time of a retry, which may be missing, has come.
abbrev pub IsDue : ℕ → Option ℕ → Type 0
IsDue now none = Unit
IsDue now (some ts) = ts ≤ now

-- A run that was given back, or waits for a retry that is due.
abbrev pub IsGivenBack : ℕ → Run → Type 0
IsGivenBack now r =
    (r.last_state ≡ "released") ⊎ ((r.last_state ≡ "retry_queued") × IsDue now r.next_due_ts)

-- When an issue may be started, in words of its state, its run and its blockers.
pub record IsReady (now : ℕ) (d : Database) (i : Issue) : Type 0 where
  pub opened : IsOpen i.state
  pub run_free :
      (get_run i.uuid d ≡ none)
      ⊎ ((r : Run) × (get_run i.uuid d ≡ some r)
          × IsGivenBack now r
          × ((r.last_issue_state ≡ "") ⊎ (r.last_issue_state ≢ i.state)))
  pub unblocked : IsUnblocked i.uuid d.blockers

any-blocks :
    (uuid : String) (bs : List Blocker) → any (blocks uuid) bs ≡ false → IsUnblocked uuid bs
any-blocks uuid [] h = tt
any-blocks uuid (b ∷ bs) h = (
  λ e. ground (
    arith,
    eq_iff b.issue_uuid uuid,
    eq_iff b.blocker_state "done",
    eq_iff b.blocker_state "cancelled",
  ),
  any-blocks uuid bs (ground arith),
)

is_due-IsDue : (now : ℕ) (o : Option ℕ) → (is_due now o ≡ true) ↔ IsDue now o
is_due-IsDue now none = (λ h. tt, λ h. refl)
is_due-IsDue now (some ts) = (λ h. leb→le ts now h, λ h. ground (arith, h))

run_allows-free :
    (now : ℕ) (state : String) (r : Run)
    → run_allows now state (some r) ≡ true
    → IsGivenBack now r × ((r.last_issue_state ≡ "") ⊎ (r.last_issue_state ≢ state))
unfolding run_allows
run_allows-free now state r h = (
  given_back (ground (arith, h)),
  ground (arith, eq_iff r.last_issue_state "", eq_iff r.last_issue_state state),
)
  where
    due : is_due now r.next_due_ts ≡ true → IsDue now r.next_due_ts
    due e = (is_due-IsDue now r.next_due_ts).0 e

    given_back : (is_claimable r ≡ true) × (is_due_run now r ≡ true) → IsGivenBack now r
    given_back (c, t) = elim (Bool-cases (r.last_state == "released")) [
      | inl e ↦ inl ((eq_iff _ _).0 e)
      | inr e ↦ elim (Bool-cases (r.last_state == "retry_queued")) [
        | inl k ↦ inr ((eq_iff _ _).0 k, due (ground (arith, k, t)))
        | inr k ↦ ground (arith, c, e, k)
      ]
    ]

IsOpen-iff : (s : String) → (is_open_state s ≡ true) ↔ IsOpen s
IsOpen-iff s = (
  λ h. ground (
    arith,
    h,
    eq_iff s "done",
    eq_iff s "cancelled",
    eq_iff s "backlog",
    eq_iff s "plan_review",
    eq_iff s "awaiting_plan",
    eq_iff s "blocked",
  ),
  λ h. ground (
    arith,
    h,
    eq_iff s "done",
    eq_iff s "cancelled",
    eq_iff s "backlog",
    eq_iff s "plan_review",
    eq_iff s "awaiting_plan",
    eq_iff s "blocked",
  ),
)

is_candidate_parts :
    (now : ℕ) (d : Database) (i : Issue)
    → is_candidate now d i ≡ true
    → (is_open_state i.state ≡ true)
      × (run_allows now i.state (get_run i.uuid d) ≡ true)
      × (any (blocks i.uuid) d.blockers ≡ false)
unfolding is_candidate get_run
is_candidate_parts now d i h = ground arith

candidate_of :
    (now : ℕ) (d : Database) (i : Issue)
    → is_open_state i.state ≡ true
    → run_allows now i.state (get_run i.uuid d) ≡ true
    → any (blocks i.uuid) d.blockers ≡ false
    → is_candidate now d i ≡ true
unfolding is_candidate get_run
candidate_of now d i a b c = ground arith

pub is_candidate-IsReady :
    (now : ℕ) (d : Database) (i : Issue) → is_candidate now d i ≡ true → IsReady now d i
unfolding is_candidate get_run
is_candidate-IsReady now d i h =
    let (opened, allowed, free) = is_candidate_parts now d i h in
    record {
      opened = (IsOpen-iff i.state).0 opened;
      run_free = elim (Option-cases (get_run i.uuid d)) [
        | inl e ↦ inl e
        | inr (r, e) ↦
            let (c, m) =
              run_allows-free now i.state r
                (subst (λ o. run_allows now i.state o ≡ true) e allowed) in
            inr (r, e, c, m)
      ];
      unblocked = any-blocks i.uuid d.blockers free;
    }

IsUnblocked-any :
    (uuid : String) (bs : List Blocker) → IsUnblocked uuid bs → any (blocks uuid) bs ≡ false
IsUnblocked-any uuid [] h = refl
IsUnblocked-any uuid (b ∷ bs) h = ground (
  arith,
  IsUnblocked-any uuid bs h.1,
  h.0,
  eq_iff b.issue_uuid uuid,
  eq_iff b.blocker_state "done",
  eq_iff b.blocker_state "cancelled",
)

free-run_allows :
    (now : ℕ) (state : String) (r : Run)
    → IsGivenBack now r
    → (r.last_issue_state ≡ "") ⊎ (r.last_issue_state ≢ state)
    → run_allows now state (some r) ≡ true
unfolding run_allows
free-run_allows now state r (inl e) m =
    rw e (ground (arith, m, eq_iff r.last_issue_state "", eq_iff r.last_issue_state state))
free-run_allows now state r (inr (e, t)) m =
    let due = (is_due-IsDue now r.next_due_ts).1 t in
    rw (e, due) (ground (arith, m, eq_iff r.last_issue_state "", eq_iff r.last_issue_state state))

allowed_of :
    (now : ℕ) (d : Database) (i : Issue)
    → IsReady now d i
    → run_allows now i.state (get_run i.uuid d) ≡ true
unfolding run_allows
allowed_of now d i h = elim h.run_free [
  | inl e ↦ rw e refl
  | inr (r, e, c, m) ↦ rw e (free-run_allows now i.state r c m)
]

pub IsReady-is_candidate :
    (now : ℕ) (d : Database) (i : Issue) → IsReady now d i → is_candidate now d i ≡ true
unfolding is_candidate get_run
IsReady-is_candidate now d i h =
    candidate_of now d i ((IsOpen-iff i.state).1 h.opened) (allowed_of now d i h)
      (IsUnblocked-any i.uuid d.blockers h.unblocked)
