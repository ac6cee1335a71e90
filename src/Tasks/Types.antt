-- ===== src/Tasks/Types.antt =====
-- src/core/types/task.ts, and the errors of src/state/tasks.ts.
use octeam.Prelude.{ℕ, String, Bool, true, false, Option, List}

pub data TaskStatus : Type 0 where
  pending claimed in_progress completed deleted : TaskStatus

abbrev pub status_eq : TaskStatus → TaskStatus → Bool
status_eq pending pending = true
status_eq claimed claimed = true
status_eq in_progress in_progress = true
status_eq completed completed = true
status_eq deleted deleted = true
status_eq _ _ = false

-- A text as the runtime holds it: UTF-16 code units.
abbrev pub Units : Type 0
Units = List ℕ

pub record Task : Type 0 where
  pub id : String
  pub run_id : Option Units
  pub subject : String
  pub description : String
  pub status : TaskStatus
  pub owner : Option String
  pub blocked_by : List String
  pub created_at : ℕ
  pub updated_at : ℕ
  pub claimed_at : Option ℕ
  pub depth : Option ℕ
  pub result : Option Units

pub data TaskError : Type 0 where
  invalid_task_id : String → TaskError
  -- member, held task, its status
  member_holds_active_task : String → String → TaskStatus → TaskError
  task_already_claimed : String → TaskError
  task_ownership : String → Option String → TaskError
  task_status : String → TaskError
  -- task, and the blocker with its status, or `none` where its file is missing
  task_blocked_by : String → Option (String × TaskStatus) → TaskError
  task_not_found : String → TaskError
  cannot_revive : String → TaskStatus → TaskStatus → TaskError
  requires_owner : String → TaskStatus → TaskError
  -- a file that is no JSON, and a file that exists but fails the schema in a strict listing
  unreadable : String → TaskError
  schema_invalid : String → TaskError

pub data Result {ℓ} (A : Type ℓ) : Type ℓ where
  ok : A → Result A
  err : TaskError → Result A
