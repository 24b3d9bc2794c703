-- ===== src/Mcp/Tools/Emitting.antt =====
-- `emit_result` of src/mcp/tools.ts: what is stored.
use nano_symphony.Common.{ℕ, String, ◌≡◌, refl, ◌∙◌, none, some}
use nano_symphony.Json.{Json}
use nano_symphony.Tracker.Types.{Issue, Database}
use nano_symphony.Tracker.Issues.{get_issue}
use nano_symphony.Tracker.Events.{record_event}
use nano_symphony.Tracker.Results.{upsert_issue_result, get_latest_issue_result}
use nano_symphony.Tracker.Results.Versions.{get_latest_issue_result-upsert}
use nano_symphony.Worker.Env.{log_event}
use nano_symphony.Mcp.Tools.Host.{Host}
use nano_symphony.Mcp.Tools.Effects.{check_result, emit_for, emit_result}

module _ (host : Host) (u : String) where
  latest-emit_for :
      (attempt : ℕ) (i : Issue) (v : Json) (d : Database)
      → let checked = check_result host i.expected_schema v in
        let (d', version) = upsert_issue_result u attempt host.env.now v checked.0 none d in
        get_latest_issue_result u (some attempt) (emit_for host u attempt i (some v) d).0
        ≡ get_latest_issue_result u (some attempt) d'
  unfolding emit_for log_event record_event get_latest_issue_result
  latest-emit_for attempt i v d = refl

  -- An attempt that emits a value for an issue that is there: the latest result of the attempt is that
  -- value, marked valid exactly if the check against the issue's schema says so.
  pub get_latest_issue_result-emit_result :
      (attempt : ℕ) (i : Issue) (v : Json) (d : Database)
      → get_issue u d ≡ some i
      → let checked = check_result host i.expected_schema v in
        let d' = (emit_result host u attempt (some v) d).0 in
        (version : ℕ) × (get_latest_issue_result u (some attempt) d'
          ≡ some (record {
            issue_uuid = u;
            attempt = attempt;
            version = version;
            payload = v;
            validated = checked.0;
            created_at = host.env.now;
          }))
  unfolding emit_result
  get_latest_issue_result-emit_result attempt i v d found =
      let checked = check_result host i.expected_schema v in
      let stored = upsert_issue_result u attempt host.env.now v checked.0 none d in
      (
        stored.1,
        rw (emit_result, found)
            (latest-emit_for attempt i v d
              ∙ (get_latest_issue_result-upsert u attempt host.env.now v checked.0 d).0),
      )
