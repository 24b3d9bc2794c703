-- ===== src/Mcp/Tools/Session.antt =====
-- `session_completed` of src/mcp/tools.ts.
use nano_symphony.Common.{
  ℕ, String, Bool, false, ◌||◌, Option, none, some, List, [], ◌∷◌, ◌++◌, ◌==◌, if◌then◌else◌,
  get_or, one_of, length,
}
use nano_symphony.Json.{Json, str, bool, whole, arr, nil, cons, object}
use nano_symphony.Tracker.Types.{ArtifactSource, Database}
use nano_symphony.Tracker.Issues.{update_last_blocker_fingerprint}
use nano_symphony.Tracker.Artifacts.{insert_artifact}
use nano_symphony.Worker.Env.{log_event}
use nano_symphony.Mcp.Tools.Host.{Host}
use nano_symphony.Mcp.Tools.Artifacts.{
  ArtifactItem, kind_of, build_artifact_label, extract_artifact_content, get_artifact_path,
  artifact_json, guess_mime_type,
}
use nano_symphony.Mcp.Tools.Schemas.{SessionCompleted}
use nano_symphony.Mcp.Tools.Effects.{Handled, ok}

abbrev given {ℓ} : {A : Type ℓ} → (A → Json) → String → Option A → List (String × Json)
given print k none = []
given print k (some x) = (k, print x) ∷ []

abbrev array_of {ℓ} : {A : Type ℓ} → (A → Json) → List A → nano_symphony.Json.Items
array_of print [] = nil
array_of print (x ∷ xs) = cons (print x) (array_of print xs)

abbrev artifacts_json : List ArtifactItem → Json
artifacts_json as' = arr (array_of artifact_json as')

abbrev follow_ups_json : List String → Json
follow_ups_json ss = arr (array_of str ss)

unfoldable pub session_payload : SessionCompleted → Json
session_payload p = object (
    ("semantics", str p.semantics) ∷ given str "handoff_state" p.handoff_state
    ++ given str "blocker_fingerprint" p.blocker_fingerprint
    ++ given str "termination_cause" p.termination_cause
    ++ given artifacts_json "artifacts" p.artifacts
    ++ given follow_ups_json "follow_ups" p.follow_ups)

unfoldable pub insert_item : Host → String → ℕ → ArtifactItem → Database → Database
insert_item host u attempt a d =
    let path = get_artifact_path a in
    insert_artifact host.byte_length (host.artifact_id (length d.artifacts)) host.env.now
      (record {
        issue_uuid = u;
        attempt = attempt;
        source = ArtifactSource.mcp;
        kind = kind_of a;
        label = some (build_artifact_label a);
        path = path;
        content = extract_artifact_content a;
        metadata = some (artifact_json a);
        storage_path = none;
        content_size = none;
        mime_type = some (guess_mime_type host.extension (kind_of a) path);
      })
      d

-- the path by which a repeated item is skipped
unfoldable pub dedup_path : ArtifactItem → Option String
dedup_path a = elim (get_artifact_path a) [
  | none ↦ none
  | some path ↦ if path == "" then none else some path
]

abbrev pub is_seen : Option String → List String → Bool
is_seen none seen = false
is_seen (some path) seen = one_of path seen

abbrev pub now_seen : Option String → List String → List String
now_seen none seen = seen
now_seen (some path) seen = seen ++ path ∷ []

-- the loop over the items, with the paths that it has seen
unfoldable pub insert_items :
    Host → String → ℕ → List String → List ArtifactItem → Database → Database
unfolding insert_item dedup_path
insert_items host u attempt seen [] d = d
insert_items host u attempt seen (a ∷ as') d =
    let skipped = insert_items host u attempt seen as' d in
    let kept =
      insert_items host u attempt (now_seen (dedup_path a) seen) as'
        (insert_item host u attempt a d) in
    if is_seen (dedup_path a) seen then skipped else kept

unfoldable pub note_fingerprint : String → Option String → Database → Database
note_fingerprint u none d = d
note_fingerprint u (some f) d = if f == "" then d else update_last_blocker_fingerprint u (some f) d

unfoldable pub session_completed : Host → String → ℕ → SessionCompleted → Database → Handled
unfolding session_payload insert_items note_fingerprint
session_completed host u attempt p d =
    let d1 =
      log_event host.env u "session_completed" (get_or p.summary "Session completed")
        (some (session_payload p)) d in
    let d2 = insert_items host u attempt [] (get_or p.artifacts []) d1 in
    let d3 = note_fingerprint u p.blocker_fingerprint d2 in
    (
      if p.semantics == "success" || p.semantics == "handoff"
          then update_last_blocker_fingerprint u none d3
          else d3,
      ok,
    )
