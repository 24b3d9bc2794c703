-- ===== src/Http/Issues/Retrigger.antt =====
-- POST /issues/:uuid/retrigger of src/http/routes/issues.ts. `note.slice(0, n)` and whether `note.trim()` is
-- empty stand outside, and so does the id of the comment.
use nano_symphony.Common.{
  ℕ, String, Bool, true, false, not, Option, none, some, [], ◌∷◌, ◌==◌, if◌then◌else◌, concat,
}
use nano_symphony.Json.{str, bool, whole, object}
use nano_symphony.Tracker.Types.{Issue, Database}
use nano_symphony.Tracker.Issues.{update_issue_state, update_last_blocker_fingerprint}
use nano_symphony.Tracker.Runs.{update_last_issue_state}
use nano_symphony.Tracker.Comments.{add_comment, count_comments}
use nano_symphony.Worker.Env.{Env, log_event}
use nano_symphony.Http.Issues.{IssueReply, done, if_found, if_valid}
use nano_symphony.Http.Issues.Plans.{release_for_reschedule}

pub record Notes : Type 0 where
  pub comment_id : String
  pub slice : ℕ → String → String
  pub is_blank : String → Bool

-- what `RetriggerSchema` leaves of a body
pub record Retrigger : Type 0 where
  pub target_state : String
  pub reset_blocker_fingerprint : Bool
  pub note : Option String

-- `!!note?.trim()`
abbrev has_note : Notes → Option String → Bool
has_note notes none = false
has_note notes (some note) = not (notes.is_blank note)

abbrev pub log_comment : Env → Notes → String → String → Database → Database
log_comment env notes u note d =
    log_event env u "comment_added" (notes.slice 120 note)
      (some (object (("comment_id", str notes.comment_id) ∷ ("author", str "operator") ∷ [])))
      (add_comment notes.comment_id env.now u note (some "operator") none d).0

unfoldable pub attach_note : Env → Notes → String → Option String → Database → Database
attach_note env notes u none d = d
attach_note env notes u (some note) d =
    if notes.is_blank note then d else log_comment env notes u note d

unfoldable pub retarget : Env → String → String → String → Database → Database
retarget env u from target d = if from == target then d else update_issue_state env.now u target d

unfoldable pub reset_fingerprint : String → Bool → Database → Database
reset_fingerprint u true d = update_last_blocker_fingerprint u none d
reset_fingerprint u false d = d

-- the writes in their order, from the note on to the event
unfoldable pub retrigger : Env → Notes → String → Retrigger → Issue → Database → Database
unfolding attach_note retarget reset_fingerprint
retrigger env notes u p i d =
    let moved = retarget env u i.state p.target_state (attach_note env notes u p.note d) in
    let released = release_for_reschedule u (update_last_issue_state u "" moved) in
    let reset = reset_fingerprint u p.reset_blocker_fingerprint released in
    log_event env u "retrigger_requested"
      (concat ("Retrigger: " ∷ i.state ∷ " → " ∷ p.target_state ∷ []))
      (some (
        object (
          ("from_state", str i.state)
          ∷ ("to_state", str p.target_state)
          ∷ ("reset_blocker_fingerprint", bool p.reset_blocker_fingerprint)
          ∷ ("note_attached", bool (has_note notes p.note))
          ∷ ("comments_total", whole (count_comments u reset))
          ∷ [])))
      reset

unfoldable pub retrigger_route : Env → Notes → String → Option Retrigger → Database → IssueReply
unfolding retrigger
retrigger_route env notes u body =
    if_found u (λ i. if_valid body (λ p d. done 200 none true (retrigger env notes u p i d)))
