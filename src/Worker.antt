-- ===== src/Worker.antt =====
-- The worker of one attempt, from the end of the agent's process on: src/orchestrator/worker.ts.
pub mod Env
pub mod Completion
pub mod Breaker
pub mod Budget
pub mod Override
pub mod Settle
pub mod Attempt
