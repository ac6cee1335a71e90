-- ===== src/Workflow/Gates.antt =====
-- src/orchestration/workflow/gate.ts and gate-targets.ts: what a gate verifies, when it may jump,
-- and how the verdicts of its verifiers make one.
pub mod Targets
pub mod Conditions
pub mod Ensemble
