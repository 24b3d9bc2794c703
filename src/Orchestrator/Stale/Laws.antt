-- ===== src/Orchestrator/Stale/Laws.antt =====
-- The runs after the release of the stale ones in tick of src/orchestrator/index.ts.
use nano_symphony.Common.{
  ℕ, ◌-◌, String, ◌≡◌, refl, sym, ap, ◌∙◌, inl, inr, Bool, true, false, ◌&&◌, ◌||◌, not, Option,
  none, some, List, [], ◌∷◌, map, arith, ◌==◌, eq_refl, if◌then◌else◌, Bool-cases, keep, any, All,
  update_rows,
}
use nano_symphony.Tracker.Types.{Issue, Run, Database, run_key}
use nano_symphony.Tracker.Runs.{release_issue, fetch_stale_runs, is_stale}
use nano_symphony.Tracker.Issues.{update_issue_state, set_issue}
use nano_symphony.Tracker.Events.{record_event}
use nano_symphony.Worker.Env.{Env, log_event}
use nano_symphony.Orchestrator.Stale.{requeue, release_stale, release_all, release_stale_runs}

abbrev is_stale_run : ℕ → Run → Bool
is_stale_run threshold r = (r.last_state == "claimed") && is_stale threshold r.heartbeat_at

abbrev released : Run → Run
released r = record r { last_state = "released" }

abbrev freed_by : String → Run → Run
freed_by u r = if r.issue_uuid == u then released r else r

-- what the releases of some runs make of a row
abbrev freed : List Run → Run → Run
freed [] r = r
freed (x ∷ xs) r = freed xs (freed_by x.issue_uuid r)

abbrev names : Run → List Run → Bool
names r xs = any (λ x. r.issue_uuid == x.issue_uuid) xs

update_rows-map :
    (u : String) (f : Run → Run) (rows : List Run)
    → update_rows run_key u f rows ≡ map (λ r. if r.issue_uuid == u then f r else r) rows
unfolding update_rows
update_rows-map u f [] = refl
update_rows-map u f (r ∷ rs) = rw (update_rows-map u f rs) refl

requeue-runs :
    (env : Env) (u : String) (o : Option Issue) (d : Database) → (requeue env u o d).runs ≡ d.runs
unfolding requeue update_issue_state set_issue
requeue-runs env u none d = refl
requeue-runs env u (some i) d =
    split (i.state == "in_progress" || i.state == "awaiting_plan") _ d refl
  where
    split : (b : Bool) (x y : Database) → x.runs ≡ y.runs → (if b then x else y).runs ≡ y.runs
    split true x y e = e
    split false x y e = refl

release_stale-runs :
    (env : Env) (cancel : String → Bool) (x : Run) (d : Database)
    → (release_stale env cancel x d).runs ≡ map (freed_by x.issue_uuid) d.runs
unfolding release_stale release_issue log_event record_event
release_stale-runs env cancel x d =
    requeue-runs env x.issue_uuid _ _ ∙ update_rows-map x.issue_uuid released d.runs

map-fusion {ℓ} : {A : Type ℓ} (f g : A → A) (xs : List A) → map f (map g xs) ≡ map (λ x. f (g x)) xs
map-fusion f g [] = refl
map-fusion f g (x ∷ xs) = rw (map-fusion f g xs) refl

map-same {ℓ} : {A : Type ℓ} (xs : List A) → map (λ x. x) xs ≡ xs
map-same [] = refl
map-same (x ∷ xs) = rw (map-same xs) refl

release_all-runs :
    (env : Env) (cancel : String → Bool) (xs : List Run) (d : Database)
    → (release_all env cancel xs d).runs ≡ map (freed xs) d.runs
unfolding release_all
release_all-runs env cancel [] d = sym (map-same d.runs)
release_all-runs env cancel (x ∷ xs) d =
    release_all-runs env cancel xs (release_stale env cancel x d)
    ∙ ap (map (freed xs)) (release_stale-runs env cancel x d)
    ∙ map-fusion (freed xs) (freed_by x.issue_uuid) d.runs

hit : {b : Bool} (r : Run) → b ≡ true → (if b then released r else r) ≡ released r
hit r e = rw e refl

miss : {b : Bool} (r : Run) → b ≡ false → (if b then released r else r) ≡ r
miss r e = rw e refl

freed-stale :
    (t : ℕ) (xs : List Run) (r : Run)
    → is_stale_run t (freed xs r) ≡ (is_stale_run t r && not (names r xs))
freed-stale t [] r = ground arith
freed-stale t (x ∷ xs) r = elim (Bool-cases (r.issue_uuid == x.issue_uuid)) [
  | inl e ↦
      ap (λ y. is_stale_run t (freed xs y)) (hit r e)
      ∙ freed-stale t xs (released r)
      ∙ rw e (nothing (is_stale_run t r))
  | inr e ↦ ap (λ y. is_stale_run t (freed xs y)) (miss r e) ∙ freed-stale t xs r ∙ rw e refl
]
  where
    nothing : (b : Bool) → false ≡ (b && false)
    nothing b = ground arith

none_left :
    (t : ℕ) (xs rows : List Run)
    → All (λ r. is_stale_run t r ≡ true → names r xs ≡ true) rows
    → keep (is_stale_run t) (map (freed xs) rows) ≡ []
none_left t xs [] h = refl
none_left t xs (r ∷ rs) h =
    rw (freed-stale t xs r, spent (is_stale_run t r) (names r xs) h.0) (none_left t xs rs h.1)
  where
    spent : (s n : Bool) → (s ≡ true → n ≡ true) → (s && not n) ≡ false
    spent s n h = ground arith

named :
    (t : ℕ) (rows : List Run)
    → All (λ r. is_stale_run t r ≡ true → names r (keep (is_stale_run t) rows) ≡ true) rows
named t [] = tt
named t (r ∷ rs) = (λ e. rw (e, eq_refl r.issue_uuid), weaken rs (λ x h. ground arith) (named t rs))
  where
    weaken : {P Q : Run → Type 0} (xs : List Run) → ((x : Run) → P x → Q x) → All P xs → All Q xs
    weaken [] f h = tt
    weaken (x ∷ xs) f (h, hs) = (f x h, weaken xs f hs)

-- After the release of the stale runs, no run is stale: every claimed run has beaten within the timeout.
pub release_stale_runs-none_left :
    (env : Env) (cancel : String → Bool) (timeout_ms : ℕ) (d : Database)
    → fetch_stale_runs (env.now - timeout_ms) (release_stale_runs env cancel timeout_ms d) ≡ []
unfolding release_stale_runs fetch_stale_runs
release_stale_runs-none_left env cancel timeout_ms d =
    let stale = fetch_stale_runs (env.now - timeout_ms) d in
    rw (release_all-runs env cancel stale d)
      (none_left (env.now - timeout_ms) stale d.runs (named (env.now - timeout_ms) d.runs))
