-- ===== src/Workflow.antt =====
-- src/orchestration/workflow: the workflow engine's step graph.
pub mod Types
pub mod Ranges
pub mod JoinPolicy
pub mod Dag
pub mod Fanout
pub mod Invariants
pub mod Gates
pub mod Engine
pub mod Verdicts
pub mod Dispatch
pub mod Advance
pub mod Idle
