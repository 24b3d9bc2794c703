-- ===== src/Mcp/Tools.antt =====
-- The tools that agents call: src/mcp/tools.ts.
pub mod Host
pub mod Fields
pub mod Artifacts
pub mod Schemas
pub mod Reads
pub mod Effects
pub mod Session
pub mod Handle
pub mod Cases
pub mod Isolation
pub mod States
pub mod Handoff
pub mod Emitting
pub mod PlanRuns
