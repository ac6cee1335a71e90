-- ===== src/Examples/TaskList.antt =====
-- A task list with a completed task and one that waits for it.
use octeam.Prelude.{ℕ, String, Option, none, some, List, [], ◌∷◌}
use octeam.Tasks.Types.{TaskStatus, pending, completed, Task}
use octeam.Tasks.Store.{shaped, TaskStore}

abbrev pub first_id : String
first_id = "00000000-0000-4000-8000-000000000001"

abbrev pub second_id : String
second_id = "00000000-0000-4000-8000-000000000002"

abbrev pub task_of : String → TaskStatus → Option String → Option ℕ → List String → Task
task_of id status owner claimed_at blocked_by = record {
  id = id;
  run_id = none;
  subject = "subject";
  description = "description";
  status = status;
  owner = owner;
  blocked_by = blocked_by;
  created_at = 1;
  updated_at = 1;
  claimed_at = claimed_at;
  depth = some 0;
  result = none;
}

abbrev pub store_of : TaskStatus → Option String → Option ℕ → TaskStore
store_of status owner claimed_at = record {
  files =
      (first_id, shaped (task_of first_id completed none none []))
      ∷ (second_id, shaped (task_of second_id status owner claimed_at (first_id ∷ [])))
      ∷ [];
  locks = [];
}

abbrev pub open_store : TaskStore
open_store = store_of pending none none
