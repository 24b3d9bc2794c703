-- ===== src/Orchestrator.antt =====
-- The scheduler: src/orchestrator/index.ts.
pub mod Conflict
pub mod Stale
pub mod Dispatch
