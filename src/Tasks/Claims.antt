-- ===== src/Tasks/Claims.antt =====
-- Creation, claims and the reaper of src/state/tasks.ts. A claim runs under the team's claim mutex.
pub mod Single
pub mod Exclusive
pub mod Reaper
pub mod Sweep
use octeam.Prelude.{
  ℕ, ◌+◌, String, Bool, false, not, ◌&&◌, ◌||◌, Option, none, some, List, [], ◌∷◌, leb, str_eq,
  get_or, or_else, eq_string, if◌then◌else◌,
}
use octeam.Prelude.Assoc.{lookup, insert, erase}
use octeam.Tasks.Types.{
  pending, claimed, completed, deleted, status_eq, Units, Task, TaskError, invalid_task_id,
  member_holds_active_task, task_already_claimed, task_status, task_blocked_by, unreadable,
  schema_invalid, Result, ok, err,
}
use octeam.Tasks.Text.{is_task_id}
use octeam.Tasks.Store.{
  TaskFile, shaped, ClaimLock, TaskStore, claim_ttl_ms, is_active, null, found, throws,
  read_task_file, Patch, Expected, given, no_patch, expect_nothing, update_task,
}

-- The id is the caller's or a fresh one, and the blockers are `[]` where none are given.
unfoldable pub create_task :
    TaskStore
    → ℕ
    → String
    → Option Units
    → String
    → String
    → Option (List String)
    → Option ℕ
    → TaskStore × Result Task
create_task s now id run_id subject description blocked_by depth =
    let t : Task = record {
      id = id;
      run_id = run_id;
      subject = subject;
      description = description;
      status = pending;
      owner = none;
      blocked_by = get_or blocked_by [];
      created_at = now;
      updated_at = now;
      claimed_at = none;
      depth = some (get_or depth 0);
      result = none;
    } in
    if is_task_id id
    then (record s { files = insert id (shaped t) s.files }, ok t)
    else (s, err (invalid_task_id id))

-- The names `<id>.json` of the directory whose id has the shape.
unfoldable pub task_ids : List (String × TaskFile) → List String
task_ids [] = []
task_ids ((id, file) ∷ files) =
    let rest = task_ids files in if is_task_id id then id ∷ rest else rest

-- `listAllTasks(teamDirectory)`: files that cannot be read are skipped.
unfoldable pub list_ids : TaskStore → List String → List Task
list_ids s [] = []
list_ids s (id ∷ ids) =
    let rest = list_ids s ids in
    elim (read_task_file s id) [ null ↦ rest | throws ↦ rest | found t ↦ t ∷ rest ]

unfoldable pub list_all_tasks : TaskStore → List Task
list_all_tasks s = list_ids s (task_ids s.files)

-- The two ways in which the strict listing throws.
unfoldable pub first_unreadable : TaskStore → List String → Option TaskError
first_unreadable s [] = none
first_unreadable s (id ∷ ids) =
    let rest = first_unreadable s ids in
    elim (read_task_file s id) [ null ↦ rest | throws ↦ some (unreadable id) | found t ↦ rest ]

unfoldable pub first_invalid : TaskStore → List String → Option TaskError
first_invalid s [] = none
first_invalid s (id ∷ ids) =
    let rest = first_invalid s ids in
    elim (read_task_file s id) [ null ↦ some (schema_invalid id) | throws ↦ rest | found t ↦ rest ]

unfoldable pub list_strict : TaskStore → Result (List Task)
list_strict s =
    elim (or_else (first_unreadable s (task_ids s.files)) (first_invalid s (task_ids s.files))) [
      | some error ↦ err error
      | none ↦ ok (list_all_tasks s)
    ]

-- `t.owner === owner`, and the task is in the claim window or in progress.
abbrev pub holds : String → Task → Bool
holds owner t = elim t.owner [ none ↦ false | some name ↦ str_eq name owner ] && is_active t.status

unfoldable pub find_held : String → List Task → Option Task
find_held owner [] = none
find_held owner (t ∷ ts) = let rest = find_held owner ts in if holds owner t then some t else rest

-- `lockFresh`: written at most the time to live ago.
abbrev pub is_fresh : ℕ → ClaimLock → Bool
is_fresh now lock = leb now (lock.modified_at + claim_ttl_ms)

-- A fresh lock of somebody refuses the claim; a stale one is replaced.
unfoldable pub acquire_claim_lock : TaskStore → ℕ → String → String → Option TaskStore
acquire_claim_lock s now id owner =
    let taken : TaskStore = record s {
      locks = insert id (record { holder = owner; modified_at = now }) s.locks;
    } in
    elim (lookup id s.locks) [
      | none ↦ some taken
      | some lock ↦ if is_fresh now lock then none else some taken
    ]

abbrev pub release : String → TaskStore → TaskStore
release id s = record s { locks = erase id s.locks }

-- `find` of the first blocker that is missing, or neither completed nor deleted.
unfoldable pub unresolved_blocker : TaskStore → String → List String → Option TaskError
unresolved_blocker s id [] = none
unresolved_blocker s id (b ∷ bs) =
    let rest = unresolved_blocker s id bs in
    elim (read_task_file s b) [
      | null ↦ some (task_blocked_by id none)
      | throws ↦ rest
      | found t ↦
          if status_eq t.status completed || status_eq t.status deleted
          then rest
          else some (task_blocked_by id (some (t.id, t.status)))
    ]

abbrev pub claim_patch : ℕ → String → Patch
claim_patch now owner = record no_patch {
  status = some claimed;
  owner = given (some owner);
  claimed_at = given (some now);
}

abbrev pub expect_pending : Expected
expect_pending = record expect_nothing { status = some pending }

abbrev pub claim_error : String → TaskError → TaskError
claim_error id (task_status t) = task_already_claimed id
claim_error id error = error

-- Step 3: the flip, and the release of the lock where it fails.
unfoldable pub flip_to_claimed : TaskStore → ℕ → String → String → TaskStore × Result Task
flip_to_claimed s now id owner =
    let (after, result) = update_task s now id (claim_patch now owner) expect_pending in
    elim result [
      | ok t ↦ (after, ok t)
      | err error ↦ (release id after, err (claim_error id error))
    ]

-- Steps 2 and 2b, with the claim lock taken.
unfoldable pub claim_locked : TaskStore → ℕ → String → String → TaskStore × Result Task
claim_locked s now id owner = elim (read_task_file s id) [
  | throws ↦ (s, err (unreadable id))
  | null ↦ (release id s, err (task_already_claimed id))
  | found t ↦
      if not (status_eq t.status pending)
      then (release id s, err (task_already_claimed id))
      else elim (first_unreadable s t.blocked_by) [
        | some error ↦ (s, err error)
        | none ↦ elim (unresolved_blocker s id t.blocked_by) [
          | some error ↦ (release id s, err error)
          | none ↦ flip_to_claimed s now id owner
        ]
      ]
]

unfoldable pub claim_task : TaskStore → ℕ → String → String → TaskStore × Result Task
claim_task s now id owner =
    if is_task_id id
    then elim (list_strict s) [
      | err error ↦ (s, err error)
      | ok tasks ↦ elim (find_held owner tasks) [
        | some t ↦ (s, err (member_holds_active_task owner t.id t.status))
        | none ↦ elim (acquire_claim_lock s now id owner) [
          | none ↦ (s, err (task_already_claimed id))
          | some taken ↦ claim_locked taken now id owner
        ]
      ]
    ]
    else (s, err (invalid_task_id id))
