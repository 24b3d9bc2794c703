-- ===== src/Worker/Settle/Guards.antt =====
-- How each branch of the transaction in runWorker, src/orchestrator/worker.ts, changes the issue's
-- state and its run.
use mathlib.Core.Option
use nano_symphony.Common.{
  ℕ, ◌+◌, String, ◌≡◌, refl, sym, ap, ◌∙◌, inl, inr, Bool, true, false, Option, none, some, arith,
  ◌==◌, eq_iff, eq_refl, if◌then◌else◌, Bool-cases,
}
use nano_symphony.Json.{Json}
use nano_symphony.Tracker.Types.{Issue, Run, Database}
use nano_symphony.Tracker.Issues.{
  get_issue, update_issue_state, update_last_blocker_fingerprint, set_issue,
}
use nano_symphony.Tracker.Issues.Laws.{
  get_issue-update_issue_state, get_issue-update_last_blocker_fingerprint,
}
use nano_symphony.Tracker.Runs.{
  get_run, release_issue, update_last_issue_state, schedule_retry, set_run,
}
use nano_symphony.Tracker.Runs.Laws.{
  Updates, get_run-release_issue, get_run-update_last_issue_state, get_run-schedule_retry,
}
use nano_symphony.Tracker.Events.{record_event}
use nano_symphony.Worker.Env.{Env, log_event}
use nano_symphony.Worker.Override.{Report}
use nano_symphony.Worker.Settle.{
  Policy, move_to, give_back, finish_success, finish_handoff, short_circuit, plan_retry,
  keep_fingerprint, trip, abandon, blocked_state, delay,
}

-- the state of an issue of the table
abbrev pub issue_state : String → Database → Option String
issue_state u d = Option.map (λ i. i.state) (get_issue u d)

abbrev pub given_back : String → String → Run → Run
given_back run_state issue_state r = record r {
  last_state = run_state;
  last_issue_state = issue_state;
}

Updates-self :
    (op : Database → Database) (k : String) (f : Run → Run) (d : Database)
    → Updates op k f
    → get_run k (op d) ≡ Option.map f (get_run k d)
Updates-self op k f d up = up k d ∙ rw (eq_refl k)

map-given_back :
    (s t : String) (o : Option Run)
    → Option.map {B = Run}
        (λ r. record r { last_issue_state = t })
        (Option.map {B = Run} (λ r. record r { last_state = s }) o)
      ≡ Option.map (given_back s t) o
map-given_back s t none = refl
map-given_back s t (some r) = refl

get_run-give_back :
    (u s t : String) (d : Database)
    → get_run u (give_back u s t d) ≡ Option.map (given_back s t) (get_run u d)
get_run-give_back u s t d =
    rw
      (
        Updates-self (update_last_issue_state u t) u _ (release_issue u s d)
            (get_run-update_last_issue_state u t),
        Updates-self (release_issue u s) u _ d (get_run-release_issue u s),
      )
      (map-given_back s t (get_run u d))

pub get_run-log_event :
    (j : String) (env : Env) (u k m : String) (p : Option Json) (d : Database)
    → get_run j (log_event env u k m p d) ≡ get_run j d
unfolding get_run log_event record_event
get_run-log_event j env u k m p d = refl

pub issue_state-log_event :
    (j : String) (env : Env) (u k m : String) (p : Option Json) (d : Database)
    → issue_state j (log_event env u k m p d) ≡ issue_state j d
unfolding get_issue log_event record_event
issue_state-log_event j env u k m p d = refl

issue_state-give_back :
    (j u s t : String) (d : Database) → issue_state j (give_back u s t d) ≡ issue_state j d
unfolding get_issue release_issue update_last_issue_state set_run
issue_state-give_back j u s t d = refl

get_run-update_last_blocker_fingerprint :
    (j u : String) (f : Option String) (d : Database)
    → get_run j (update_last_blocker_fingerprint u f d) ≡ get_run j d
unfolding get_run update_last_blocker_fingerprint set_issue
get_run-update_last_blocker_fingerprint j u f d = refl

map_state :
    (b : Bool) (f : Option String) (o : Option Issue)
    → Option.map {B = String}
        (λ i. i.state)
        (if b then Option.map {B = Issue} (λ i. record i { last_blocker_fingerprint = f }) o else o)
      ≡ Option.map (λ i. i.state) o
map_state true f none = refl
map_state true f (some i) = refl
map_state false f o = refl

issue_state-update_last_blocker_fingerprint :
    (j u : String) (f : Option String) (d : Database)
    → issue_state j (update_last_blocker_fingerprint u f d) ≡ issue_state j d
issue_state-update_last_blocker_fingerprint j u f d =
    rw (get_issue-update_last_blocker_fingerprint u f j d) (map_state (u == j) f (get_issue j d))

issue_state-schedule_retry :
    (j u : String) (ts a : ℕ) (d : Database)
    → issue_state j (schedule_retry u ts a d) ≡ issue_state j d
unfolding get_issue schedule_retry set_run
issue_state-schedule_retry j u ts a d = refl

ruleset frames = (
  get_run-give_back, get_run-log_event, issue_state-log_event, issue_state-give_back,
  get_run-update_last_blocker_fingerprint, issue_state-update_last_blocker_fingerprint,
  issue_state-schedule_retry,
)

pub issue_state-update_issue_state :
    (now : ℕ) (u s x : String) (d : Database)
    → issue_state u d ≡ some x
    → issue_state u (update_issue_state now u s d) ≡ some s
issue_state-update_issue_state now u s x d h =
    rw (get_issue-update_issue_state now u s u d, eq_refl u) (map-some (get_issue u d) h)
  where
    map-some :
        (o : Option Issue)
        → Option.map {B = String} (λ i. i.state) o ≡ some x
        → Option.map {B = String}
            (λ i. i.state)
            (Option.map {B = Issue} (λ i. record i { state = s; updated_at = now }) o)
          ≡ some s
    map-some none e = cc
    map-some (some i) e = refl

-- With the issue in the state in which the worker read it, moving it always gets it to the new state.
pub issue_state-move_to :
    (env : Env) (u s : String) (issue : Issue) (d : Database)
    → issue_state u d ≡ some issue.state
    → issue_state u (move_to env u issue s d) ≡ some s
issue_state-move_to env u s issue d h = elim (Bool-cases (s == issue.state)) [
  | inl e ↦ rw e (h ∙ ap some (sym ((eq_iff s issue.state).0 e)))
  | inr e ↦ rw e (issue_state-update_issue_state env.now u s issue.state d h)
]

pub get_run-move_to :
    (env : Env) (u s j : String) (issue : Issue) (d : Database)
    → get_run j (move_to env u issue s d) ≡ get_run j d
unfolding update_issue_state get_run set_issue
get_run-move_to env u s j issue d = ground arith

module _ (env : Env) (policy : Policy) (u : String) (attempt : ℕ) (issue : Issue) where
  pub finish_success_view :
      (r : Report) (s : String) (d : Database)
      → let d' = (finish_success env policy u attempt issue r s d).1 in
        (get_run u d' ≡ Option.map (given_back "released" s) (get_run u d))
        × (issue_state u d' ≡ issue_state u d)
  unfolding finish_success
  finish_success_view r s d = (simp frames, simp frames)

  pub finish_handoff_view :
      (r : Report) (s : String) (d : Database)
      → let d' = (finish_handoff env policy u attempt issue r s d).1 in
        (get_run u d' ≡ Option.map (given_back s s) (get_run u d))
        × (issue_state u d' ≡ issue_state u d)
  unfolding finish_handoff
  finish_handoff_view r s d = (simp frames, simp frames)

  pub abandon_view :
      (r : Report) (s : String) (d : Database)
      → let d' = (abandon env policy u attempt issue r s d).1 in
        (get_run u d' ≡ Option.map (given_back "released" s) (get_run u d))
        × (issue_state u d' ≡ issue_state u d)
  unfolding abandon
  abandon_view r s d = (simp frames, simp frames)

  pub trip_view :
      (d : Database)
      → let s = blocked_state policy.transitions in
        let d' = (trip env policy u attempt issue d).1 in
        (get_run u d' ≡ Option.map (given_back "released" s) (get_run u d))
        × (issue_state u d' ≡ issue_state u (move_to env u issue s d))
  unfolding trip
  trip_view d = (simp (frames, get_run-move_to), simp frames)

  pub short_circuit_view :
      (f : String) (d : Database)
      → let s = blocked_state policy.transitions in
        let d' = (short_circuit env policy u attempt issue f d).1 in
        (get_run u d' ≡ Option.map (given_back "released" s) (get_run u d))
        × (issue_state u d' ≡ issue_state u (move_to env u issue s d))
  unfolding short_circuit
  short_circuit_view f d = (simp (frames, get_run-move_to), simp frames)

  abbrev pub queued : Run → Run
  queued r = record r {
    last_state = "retry_queued";
    next_due_ts = some (env.now + delay env policy u attempt issue);
    next_attempt = attempt + 1;
  }

  get_run-keep_fingerprint :
      (j : String) (f : Option String) (d : Database)
      → get_run j (keep_fingerprint env policy u attempt issue f d) ≡ get_run j d
  unfolding keep_fingerprint
  get_run-keep_fingerprint j none d = refl
  get_run-keep_fingerprint j (some f) d = simp frames

  pub plan_retry_run :
      (r : Report) (f : Option String) (d : Database)
      → get_run u (plan_retry env policy u attempt issue r f d).1 ≡ Option.map queued (get_run u d)
  unfolding plan_retry
  plan_retry_run r f d = simp frames (
      Updates-self (schedule_retry u _ (attempt + 1)) u queued _
        (get_run-schedule_retry u _ (attempt + 1))
      ∙ ap (Option.map queued) (get_run-keep_fingerprint u f d))
