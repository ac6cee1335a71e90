-- ===== src/Workflow/Dispatch.antt =====
-- src/orchestration/workflow/engine.ts: how the steps of a workflow are dispatched.
pub mod Send
pub mod Verifiers
pub mod Inputs
pub mod Open
