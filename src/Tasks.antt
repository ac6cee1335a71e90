-- ===== src/Tasks.antt =====
-- src/state/tasks.ts: the shared task list, its claims and their reaper.
pub mod Types
pub mod Text
pub mod Store
pub mod Claims
