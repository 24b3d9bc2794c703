-- ===== src/Tests.antt =====
-- Runs of the program's operations at concrete inputs.
mod Samples
mod Scheduling
mod Tracking
mod Working
mod Planning
mod Revising
mod Layering
mod Reviewing
mod Granting
mod Calling
mod Routing
