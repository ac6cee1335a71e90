-- ===== src/Modes.antt =====
-- src/orchestration/modes and src/orchestration/control: the barrier that the modes share, the mode
-- `quorum`, and the settlement of a signoff.
pub mod Barriers
pub mod Quorum
pub mod Signoff
