-- ===== src/Plan.antt =====
-- Plans: src/orchestrator/plan-tick.ts, plan-executor.ts and plan-progress.ts, src/http/plan-diff.ts,
-- src/http/routes/plan-runs.ts and the layers of src/plan-runtime/runner.ts.
pub mod Tick
pub mod Diff
pub mod Dag
pub mod Executor
pub mod Routes
pub mod Lifecycle
pub mod Progress
pub mod Schema
