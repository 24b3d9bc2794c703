-- ===== src/Plan/Lifecycle/Rows.antt =====
-- The rows of src/db/tracker-plan-runs.ts under the writes of src/orchestrator/plan-tick.ts.
use nano_symphony.Common.{
  ℕ, String, ◌≡◌, refl, sym, ap, ◌∙◌, subst, ◌≢◌, inl, inr, Bool, true, some, List, [], ◌∷◌, ◌++◌,
  ◌==◌, eq_iff, Bool-cases, is_some, one_of, keep, All, update_rows, Lacks, IsKeyed,
}
use nano_symphony.Tracker.Types.{PlanRun, PlanRunState, Database, plan_run_key}
use nano_symphony.Tracker.PlanRuns.{is_state, is_approved, set_plan_run, set_plan_run_running}
use nano_symphony.Plan.Tick.{Flight, begin, start_run, start_each}

-- The summary of a dry run is there, and an operator has approved it.
abbrev pub IsApproved : PlanRun → Type 0
IsApproved r = (is_approved r.approval_status ≡ true) × (is_some r.dry_run_summary ≡ true)

-- A plan run that awaits approval has a summary to approve, and one that runs was approved.
abbrev pub IsReviewed : PlanRun → Type 0
IsReviewed r =
    (is_state PlanRunState.awaiting_approval r ≡ true → is_some r.dry_run_summary ≡ true)
    × (is_state PlanRunState.running r ≡ true → IsApproved r)

module _ {ℓ} {A : Type ℓ} (key : A → String) where
  pub All-update_rows {κ} :
      (P : A → Type κ) (k : String) (f : A → A)
      → ((r : A) → P r → P (f r))
      → (rows : List A) → All P rows
      → All P (update_rows key k f rows)
  unfolding update_rows
  All-update_rows P k f keeps [] h = tt
  All-update_rows P k f keeps (r ∷ rs) h = elim (Bool-cases (key r == k)) [
    | inl e ↦ rw e (keeps r h.0, All-update_rows P k f keeps rs h.1)
    | inr e ↦ rw e (h.0, All-update_rows P k f keeps rs h.1)
  ]

  Lacks-update_rows :
      (j k : String) (f : A → A)
      → ((r : A) → key (f r) ≡ key r)
      → (rows : List A) → Lacks key j rows
      → Lacks key j (update_rows key k f rows)
  unfolding update_rows
  Lacks-update_rows j k f same [] h = tt
  Lacks-update_rows j k f same (r ∷ rs) h = elim (Bool-cases (key r == k)) [
    | inl e ↦ rw e ((λ x. h.0 (sym (same r) ∙ x)), Lacks-update_rows j k f same rs h.1)
    | inr e ↦ rw e (h.0, Lacks-update_rows j k f same rs h.1)
  ]

  pub IsKeyed-update_rows :
      (k : String) (f : A → A)
      → ((r : A) → key (f r) ≡ key r)
      → (rows : List A) → IsKeyed key rows
      → IsKeyed key (update_rows key k f rows)
  unfolding update_rows
  IsKeyed-update_rows k f same [] h = tt
  IsKeyed-update_rows k f same (r ∷ rs) h =
      let lacks = Lacks-update_rows (key r) k f same rs h.0 in
      elim (Bool-cases (key r == k)) [
        | inl e ↦ rw (e, same r) (lacks, IsKeyed-update_rows k f same rs h.1)
        | inr e ↦ rw e (lacks, IsKeyed-update_rows k f same rs h.1)
      ]

  Lacks-append :
      (j : String) (rows : List A) (r : A)
      → Lacks key j rows
      → key r ≢ j
      → Lacks key j (rows ++ r ∷ [])
  Lacks-append j [] r h k = (k, tt)
  Lacks-append j (x ∷ rows) r h k = (h.0, Lacks-append j rows r h.1 k)

  pub IsKeyed-append :
      (rows : List A) (r : A)
      → IsKeyed key rows
      → Lacks key (key r) rows
      → IsKeyed key (rows ++ r ∷ [])
  IsKeyed-append [] r h k = (tt, tt)
  IsKeyed-append (x ∷ rows) r h k =
      (Lacks-append (key x) rows r h.0 (λ e. k.0 (sym e)), IsKeyed-append rows r h.1 k.1)

  -- Every row with the key has the property.
  abbrev pub AllWith {κ} : (A → Type κ) → String → List A → Type κ
  AllWith P k = All (λ r. key r ≡ k → P r)

  AllWith-Lacks {κ} :
      (P : A → Type κ) (k : String) (rows : List A) → Lacks key k rows → AllWith P k rows
  AllWith-Lacks P k [] h = tt
  AllWith-Lacks P k (r ∷ rs) h = ((λ e. absurd (h.0 e)), AllWith-Lacks P k rs h.1)

  Lacks-keep :
      (k : String) (p : A → Bool) (rows : List A) → Lacks key k rows → Lacks key k (keep p rows)
  Lacks-keep k p [] h = tt
  Lacks-keep k p (r ∷ rs) h = elim (Bool-cases (p r)) [
    | inl e ↦ rw e (h.0, Lacks-keep k p rs h.1)
    | inr e ↦ rw e (Lacks-keep k p rs h.1)
  ]

  AllWith-other {κ} :
      (P : A → Type κ) (x : A) (rows picked : List A)
      → Lacks key (key x) picked
      → All (λ r. AllWith P (key r) rows) picked
      → All (λ r. AllWith P (key r) (x ∷ rows)) picked
  AllWith-other P x rows [] h k = tt
  AllWith-other P x rows (r ∷ rs) h k =
      (((λ e. absurd (h.0 (sym e))), k.0), AllWith-other P x rows rs h.1 k.1)

  -- what holds of the rows that a test selects holds of every row with the key of one of them
  pub AllWith-keep {κ} :
      (P : A → Type κ) (p : A → Bool) (rows : List A)
      → IsKeyed key rows
      → All (λ r. p r ≡ true → P r) rows
      → All (λ r. AllWith P (key r) rows) (keep p rows)
  AllWith-keep P p [] keyed h = tt
  AllWith-keep P p (x ∷ rows) keyed h =
      let picked = AllWith-keep P p rows keyed.1 h.1 in
      let others =
        AllWith-other P x rows (keep p rows) (Lacks-keep (key x) p rows keyed.0) picked in
      elim (Bool-cases (p x)) [
        | inl e ↦ rw e (((λ _. h.0 e), AllWith-Lacks P (key x) rows keyed.0), others)
        | inr e ↦ rw e others
      ]

-- ids name one plan run each, and every plan run is reviewed
pub record Inv (d : Database) : Type 0 where
  pub keyed : IsKeyed plan_run_key d.plan_runs
  pub reviewed : All IsReviewed d.plan_runs

update_rows-twice {ℓ} :
    {A : Type ℓ} (key : A → String) (k : String) (f g : A → A)
    → ((r : A) → key (f r) ≡ key r)
    → (rows : List A)
    → update_rows key k g (update_rows key k f rows) ≡ update_rows key k (λ r. g (f r)) rows
unfolding update_rows
update_rows-twice key k f g same [] = refl
update_rows-twice key k f g same (r ∷ rs) = elim (Bool-cases (key r == k)) [
  | inl e ↦ rw (e, same r, e) (ap (λ l. g (f r) ∷ l) (update_rows-twice key k f g same rs))
  | inr e ↦ rw (e, e) (ap (λ l. r ∷ l) (update_rows-twice key k f g same rs))
]

-- A write to one plan run.
pub Inv-set_plan_run :
    (id : String) (f : PlanRun → PlanRun) (d : Database)
    → ((r : PlanRun) → plan_run_key (f r) ≡ plan_run_key r)
    → ((r : PlanRun) → IsReviewed r → IsReviewed (f r))
    → Inv d
    → Inv (set_plan_run id f d)
unfolding set_plan_run
Inv-set_plan_run id f d same keeps h = record {
  keyed = IsKeyed-update_rows plan_run_key id f same d.plan_runs h.keyed;
  reviewed = All-update_rows plan_run_key IsReviewed id f keeps d.plan_runs h.reviewed;
}

-- Only the plan runs of a database matter.
pub Inv-same : {a b : Database} → b.plan_runs ≡ a.plan_runs → Inv a → Inv b
Inv-same {a} {b} e h = record {
  keyed = subst (IsKeyed plan_run_key) (sym e) h.keyed;
  reviewed = subst (All IsReviewed) (sym e) h.reviewed;
}

-- Two writes to one plan run, of which the first may leave it in any state.
pub Inv-set_twice :
    (id : String) (f g : PlanRun → PlanRun) (d : Database)
    → ((r : PlanRun) → plan_run_key (f r) ≡ plan_run_key r)
    → ((r : PlanRun) → plan_run_key (g r) ≡ plan_run_key r)
    → ((r : PlanRun) → IsReviewed r → IsReviewed (g (f r)))
    → Inv d
    → Inv (set_plan_run id g (set_plan_run id f d))
unfolding set_plan_run
Inv-set_twice id f g d same same' keeps h =
    Inv-same (update_rows-twice plan_run_key id f g same d.plan_runs)
      (Inv-set_plan_run id (λ r. g (f r)) d (λ r. same' (f r) ∙ same r) keeps h)

abbrev run_again : ℕ → PlanRun → PlanRun
run_again now r = record r { state = PlanRunState.running; started_at = some now }

All-running :
    (id : String) (now : ℕ) (rows : List PlanRun)
    → AllWith plan_run_key IsApproved id rows
    → All IsReviewed rows
    → All IsReviewed (update_rows plan_run_key id (run_again now) rows)
unfolding update_rows
All-running id now [] a h = tt
All-running id now (r ∷ rs) a h = elim (Bool-cases (r.id == id)) [
  | inl e ↦
      let approved = a.0 ((eq_iff r.id id).0 e) in
      rw e (((λ k. approved.1), (λ k. approved)), All-running id now rs a.1 h.1)
  | inr e ↦ rw e (h.0, All-running id now rs a.1 h.1)
]

Inv-set_plan_run_running :
    (id : String) (now : ℕ) (d : Database)
    → AllWith plan_run_key IsApproved id d.plan_runs
    → Inv d
    → Inv (set_plan_run_running id now d)
unfolding set_plan_run set_plan_run_running
Inv-set_plan_run_running id now d a h = record {
  keyed = IsKeyed-update_rows plan_run_key id (run_again now) (λ r. refl) d.plan_runs h.keyed;
  reviewed = All-running id now d.plan_runs a h.reviewed;
}

-- the approvals of the plan runs that are still to be started
Waiting : List PlanRun → Database → Type 0
Waiting rs d = All (λ r. AllWith plan_run_key IsApproved r.id d.plan_runs) rs

Waiting-running :
    (id : String) (now : ℕ) (rs : List PlanRun) (d : Database)
    → Waiting rs d
    → Waiting rs (set_plan_run_running id now d)
unfolding Waiting set_plan_run set_plan_run_running
Waiting-running id now [] d h = tt
Waiting-running id now (r ∷ rs) d h = (
  All-update_rows plan_run_key (λ x. plan_run_key x ≡ r.id → IsApproved x) id (run_again now)
      (λ x k. k) d.plan_runs h.0,
  Waiting-running id now rs d h.1,
)

start_run-keeps :
    (now : ℕ) (r : PlanRun) (rs : List PlanRun) (f : Flight)
    → Waiting (r ∷ rs) f.database
    → Inv f.database
    → Waiting rs (start_run now r f).database × Inv (start_run now r f).database
unfolding start_run begin Waiting
start_run-keeps now r rs f w h = elim (Bool-cases (one_of r.id f.in_flight)) [
  | inl e ↦ rw (start_run, e) (w.1, h)
  | inr e ↦
      rw (start_run, e)
        (
          Waiting-running r.id now rs f.database w.1,
          Inv-set_plan_run_running r.id now f.database w.0 h,
        )
]

Inv-start_each :
    (now : ℕ) (rs : List PlanRun) (f : Flight)
    → Waiting rs f.database
    → Inv f.database
    → Inv (start_each (start_run now) rs f).database
unfolding start_each
Inv-start_each now [] f w h = h
Inv-start_each now (r ∷ rs) f w h =
    let next = start_run-keeps now r rs f w h in
    Inv-start_each now rs (start_run now r f) next.0 next.1

All-map {ℓ κ μ} :
    {A : Type ℓ} {P : A → Type κ} {Q : A → Type μ} (xs : List A)
    → ((x : A) → P x → Q x)
    → All P xs
    → All Q xs
All-map [] f h = tt
All-map (x ∷ xs) f h = (f x h.0, All-map xs f h.1)

-- A tick starts plan runs that it selects by a test which only approved ones pass.
pub Inv-start_selected :
    (now : ℕ) (p : PlanRun → Bool) (f : Flight)
    → ((r : PlanRun) → IsReviewed r → p r ≡ true → IsApproved r)
    → Inv f.database
    → Inv (start_each (start_run now) (keep p f.database.plan_runs) f).database
unfolding Waiting
Inv-start_selected now p f only h =
    let rows = f.database.plan_runs in
    Inv-start_each now (keep p rows) f
      (AllWith-keep plan_run_key IsApproved p rows h.keyed (All-map rows only h.reviewed)) h
