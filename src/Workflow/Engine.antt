-- ===== src/Workflow/Engine.antt =====
-- src/orchestration/workflow/engine.ts: the state of a workflow run, what runs again, and the jumps
-- of a gate. A handler returns the new state and what it hands on to; events, prompts and saves are
-- left out.
pub mod State
pub mod Rerun
pub mod Goto
pub mod Jumps
pub mod Bounds
