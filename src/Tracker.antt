-- ===== src/Tracker.antt =====
-- The tracker: the program's database and the operations on it, src/db/. Each operation maps the
-- database to the database after it and its result; the clock, the generated ids and the
-- texts that JavaScript prints are arguments. `withTransaction` runs its writes in one step.
pub mod Types
pub mod Issues
pub mod Runs
pub mod Events
pub mod Results
pub mod PlanRuns
pub mod Comments
pub mod Artifacts
pub mod Metrics
pub mod Removal
pub mod Isolation
