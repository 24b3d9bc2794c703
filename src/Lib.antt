-- ===== src/Lib.antt =====
-- nano-symphony: an orchestrator that lets coding agents work on the issues of a tracker.
--
-- The tracker (src/db/) is a database of issues, runs, events, results and plan runs. The scheduler
-- (src/orchestrator/index.ts) wakes up on a timer: it lets the plan loops run, releases the runs whose
-- workers have gone silent, asks the tracker which issues may be started, claims them and starts a worker
-- for each, under a semaphore. A worker (src/orchestrator/worker.ts) runs an agent and settles the
-- attempt: it weighs what the agent reported against how its process ended, and moves the issue and its
-- run on. An agent can hand its issue to a plan run. An operator approves it after a dry run
-- (src/http/routes/), its script runs (src/orchestrator/plan-executor.ts, src/plan-runtime/), and its end
-- resumes the issue (src/orchestrator/plan-tick.ts, plan-progress.ts). Agents speak to the tracker through
-- the tools of src/mcp/, with a token for their attempt. An operator reviews, comments, retriggers and deletes
-- issues through the routes of src/http/routes/.
--
-- The database is a record of tables, each a list of rows, and an operation is a function on it that is
-- named as in the source, in snake case. SQL that a statement runs is written out on the lists.
--
--   Tracker/Types       the tables and rows                            src/db/tracker-types.ts, schema.sql
--   Tracker/Issues      issues, labels, blockers, the candidate query  src/db/tracker-issues.ts
--   Tracker/Runs        runs: claims, releases, retries, heartbeats    src/db/tracker-runs.ts
--   Tracker/Events      events and the calls of the model              src/db/tracker-events.ts, tracker-llm-calls.ts
--   Tracker/Results     versioned results of agents                    src/db/tracker-issue-results.ts
--   Tracker/PlanRuns    plan runs                                      src/db/tracker-plan-runs.ts
--   Tracker/Comments    comments                                       src/db/tracker-comments.ts
--   Tracker/Artifacts   artifacts                                      src/db/tracker-artifacts.ts
--   Tracker/Metrics     metrics of settled issues                      src/db/tracker-issue-metrics.ts
--   Tracker/Removal     deleteIssue                                    src/db/tracker-issues.ts
--   Tracker/Isolation   the writes for an issue, seen by another one   src/db/
--   Semaphore, Backoff  the bound on agents, the delay of a retry      src/orchestrator/index.ts, backoff.ts
--   Workspace           resolveWorkspacePath                           src/workspace/manager.ts
--   Orchestrator        conflicts, stale runs and the dispatch of tick src/orchestrator/index.ts
--   Worker              completion, breaker, budget, override, settle  src/orchestrator/worker.ts
--   Worker/Attempt      the end of runWorker, composed of these        src/orchestrator/worker.ts
--   Plan/Tick           the plan loops                                 src/orchestrator/plan-tick.ts
--   Plan/Executor       executePlan and executePlanDryRun              src/orchestrator/plan-executor.ts
--   Plan/Routes         the routes that change a plan run              src/http/routes/plan-runs.ts
--   Plan/Lifecycle      all writes to plan runs, as a step relation    the three above
--   Plan/Progress       the progress of a caller                       src/orchestrator/plan-progress.ts
--   Plan/Dag            the layers of runDag                           src/plan-runtime/runner.ts
--   Plan/Diff           the comparison of two revisions of a plan      src/http/plan-diff.ts
--   Plan/Schema         validateSchema and deepEqual                   src/plan-runtime/schema-validate.ts
--   Http                the routes of issues and comments that write   src/http/routes/issues.ts, comments.ts, helpers.ts
--   Mcp                 tokens, the version, the router's checks       src/mcp/auth.ts, protocol.ts, server.ts
--   Mcp/Tools           handleTool: its schemas, its tools             src/mcp/tools.ts
--   Mcp/Serve           a request, with the tool that it runs          src/mcp/server.ts
--   Json, Common        JSON values; shared lists, tables and texts
--   Tests               runs at concrete inputs
--
-- Workers, ticks and routes interleave at transactions, so a schedule is a list of operations
-- (Tracker/Runs/Claim, Semaphore/Laws). The loops run over lists, but for the one over the layers of a
-- dag, which has as many rounds as there are nodes and one more: each round visits a node that was not
-- visited. Times are whole milliseconds; costs are whole numbers of a small unit. The doubles
-- of the backoff are counted in a unit of the model, with their rounding as an argument (Backoff).
--
-- What the runtime answers is an argument: the clock, generated ids, Math.random, String.trim, path.resolve
-- and its siblings, the agents' processes and cancelAgent, the regular expressions of normalizeBlockerString. The tools take theirs from a record
-- (Mcp/Tools/Host): lengths and slices of texts, JSON.parse, the regular expression of a workflow section and
-- what Zod's passthrough leaves. A route's body is what its schema leaves of it.
--
-- Not modelled: the agents' processes and the run log, the sandbox in which a plan's script runs with its
-- journal and its sub-issues, the routes that only read, the pages, the removal of workspaces and what git
-- reports of them, properties that every JavaScript object inherits as keys of a schema, fields of a payload of
-- session_completed that are not texts, the columns last_event, last_event_ts, last_error and last_patch of runs,
-- which no code writes, and the table plan_run_nodes.
mod Common
pub mod Semaphore
pub mod Backoff
pub mod Json
pub mod Tracker
pub mod Worker
pub mod Workspace
pub mod Orchestrator
pub mod Plan
pub mod Mcp
pub mod Http
pub mod Tests
