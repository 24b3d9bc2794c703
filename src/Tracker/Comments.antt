-- ===== src/Tracker/Comments.antt =====
-- Comments on issues: src/db/tracker-comments.ts. The id that nanoid makes and the time are arguments.
use nano_symphony.Common.{
  ℕ, String, Bool, Option, none, some, List, [], ◌∷◌, ◌++◌, ◌==◌, ltb, nat_eq, if◌then◌else◌,
  is_some, length, take, keep, find_row, delete_rows, sort_by,
}
use nano_symphony.Json.{Json}
use nano_symphony.Tracker.Types.{Comment, Database}

abbrev pub is_comment_on : String → Comment → Bool
is_comment_on issue_uuid c = c.issue_uuid == issue_uuid

-- `input.author || "operator"`
abbrev author_or_operator : Option String → String
author_or_operator none = "operator"
author_or_operator (some s) = if s == "" then "operator" else s

unfoldable pub add_comment :
    String → ℕ → String → String → Option String → Option Json → Database → Database × Comment
add_comment id now issue_uuid body author metadata d =
    let c : Comment = record {
      id = id;
      issue_uuid = issue_uuid;
      ts = now;
      author = author_or_operator author;
      body = body;
      metadata = metadata;
    } in
    (record d { comments = d.comments ++ c ∷ [] }, c)

-- `opts?.since` and `opts?.limit` are no restriction where they are 0.
abbrev after : Option ℕ → List Comment → List Comment
after none cs = cs
after (some since) cs = if nat_eq since 0 then cs else keep (λ c. ltb since c.ts) cs

abbrev limited : Option ℕ → List Comment → List Comment
limited none cs = cs
limited (some limit) cs = if nat_eq limit 0 then cs else take limit cs

unfoldable pub list_comments : String → Option ℕ → Option ℕ → Database → List Comment
list_comments issue_uuid since limit d =
    limited limit (sort_by (λ c. c.ts) (after since (keep (is_comment_on issue_uuid) d.comments)))

abbrev comment_key : Comment → String
comment_key c = c.id

unfoldable pub get_comment : String → Database → Option Comment
get_comment id d = find_row comment_key id d.comments

-- with whether a row went
unfoldable pub delete_comment : String → Database → Database × Bool
delete_comment id d = (
  record d { comments = delete_rows comment_key id d.comments },
  is_some (find_row comment_key id d.comments),
)

unfoldable pub count_comments : String → Database → ℕ
count_comments issue_uuid d = length (keep (is_comment_on issue_uuid) d.comments)
