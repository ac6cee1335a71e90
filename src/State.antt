-- ===== src/State.antt =====
-- src/state/store.ts: the merge of a team's state when it is saved.
pub mod Json
pub mod Merge
pub mod Members
pub mod Team
pub mod Fieldwise
pub mod Untouched
pub mod ByName
