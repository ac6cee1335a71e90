-- ===== src/Workflow/Verdicts.antt =====
-- src/orchestration/workflow/verdict.ts: what a gate's verdict does to the run.
pub mod Settle
pub mod Invalid
pub mod Routes
pub mod Collect
pub mod Stops
pub mod Advances
pub mod Tries
pub mod Again
pub mod Retries
