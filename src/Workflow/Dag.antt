-- ===== src/Workflow/Dag.antt =====
-- src/orchestration/workflow/dag.ts: who acts on a step, which steps are ready, when a join opens.
pub mod Actors
pub mod Joins
pub mod Ready
pub mod Validate
