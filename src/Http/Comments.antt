-- ===== src/Http/Comments.antt =====
-- The routes of src/http/routes/comments.ts that write. The regular expressions of the slash commands, of
-- src/http/routes/schemas.ts, and the trim of a text stand outside.
pub mod Laws
use nano_symphony.Common.{
  String, Bool, true, false, ◌&&◌, not, Option, none, some, [], ◌∷◌, ◌==◌, if◌then◌else◌, concat,
}
use nano_symphony.Json.{str, object}
use nano_symphony.Tracker.Types.{Issue, Database}
use nano_symphony.Tracker.Issues.{update_issue_state}
use nano_symphony.Tracker.Comments.{add_comment, delete_comment}
use nano_symphony.Worker.Env.{Env, log_event}
use nano_symphony.Http.Issues.{IssueReply, done, if_found, if_valid}
use nano_symphony.Http.Issues.Plans.{release_for_reschedule, approve_plan, revise_plan}
use nano_symphony.Http.Issues.Retrigger.{Notes}

-- how a body is read: by CMD_APPROVE_RE, by CMD_REVISE_RE with its trimmed note, by CMD_SKIP_PLAN_RE
pub data Command : Type 0 where
  approve : Command
  revise : Option String → Command
  skip_plan : Command
  plain : Command

pub record CommentInput : Type 0 where
  pub body : String
  pub author : Option String

-- the reply of a helper is dropped, but not its tick
abbrev went_on : IssueReply → Database × Bool
went_on r = (r.database, r.ticks)

-- `if (issue.state === "plan_review" && note) revisePlan(uuid, note)`
abbrev revised : Env → String → Issue → Option String → Database → Database × Bool
revised env u i none d = (d, false)
revised env u i (some note) d =
    if i.state == "plan_review" && not (note == "")
    then went_on (revise_plan env u (record { note = note; feedback = none }) d)
    else (d, false)

unfoldable pub obey : Env → String → Issue → Command → Database → Database × Bool
obey env u i approve d =
    if i.state == "plan_review"
    then went_on (approve_plan env u none d)
    else (release_for_reschedule u d, true)
obey env u i (revise note) d = revised env u i note d
obey env u i skip_plan d =
    if i.state == "todo"
    then (release_for_reschedule u (update_issue_state env.now u "in_progress" d), true)
    else (d, false)
obey env u i plain d = (d, false)

abbrev answered : Database × Bool → IssueReply
answered (d, ticks) = done 201 none ticks d

unfoldable pub comment_on :
    Env → Notes → (String → Command) → String → Issue → CommentInput → Database → IssueReply
unfolding obey
comment_on env notes command u i p d =
    let (d', c) = add_comment notes.comment_id env.now u p.body p.author none d in
    answered (
      obey env u i (command p.body) (
        log_event env u "comment_added" (notes.slice 120 p.body)
          (some (object (("comment_id", str c.id) ∷ ("author", str c.author) ∷ []))) d'))

-- POST /issues/:uuid/comments
unfoldable pub comment_route :
    Env → Notes → (String → Command) → String → Option CommentInput → Database → IssueReply
unfolding comment_on
comment_route env notes command u body =
    if_found u (λ i. if_valid body (comment_on env notes command u i))

-- DELETE /issues/:uuid/comments/:commentId
unfoldable pub delete_comment_route : Env → String → String → Database → IssueReply
delete_comment_route env u id d =
    let (d', gone) = delete_comment id d in
    done 200 none false (
      if gone
      then log_event env u "comment_deleted" (concat ("Comment " ∷ id ∷ " deleted" ∷ []))
          (some (object (("comment_id", str id) ∷ []))) d'
      else d')
