-- ===== src/Workflow/Advance.antt =====
-- How a workflow goes on to its next steps: src/orchestration/workflow/engine.ts and fanout.ts.
pub mod Truncate
pub mod Outputs
pub mod Joins
pub mod Sweep
pub mod Loop
