-- ===== src/Tasks/Store.antt =====
-- src/state/tasks.ts over the files `tasks/<id>.json` and `tasks/claims/<id>.lock` of one team.
-- A call runs to its end under the locks that it takes; `now` is the clock at the call. File system
-- failures other than a missing file are left out.
pub mod Update
use octeam.Prelude.{
  ℕ, String, Bool, true, false, not, ◌&&◌, ◌||◌, Option, none, some, List, leb, ltb, str_eq, nat_eq,
  or_else, is_some, length, all, eq_string, if◌then◌else◌,
}
use octeam.Prelude.Assoc.{lookup, insert, erase}
use octeam.Tasks.Types.{
  TaskStatus, pending, claimed, in_progress, completed, deleted, status_eq, Units, Task, TaskError,
  invalid_task_id, task_ownership, task_status, task_not_found, cannot_revive, requires_owner,
  unreadable, Result, ok, err,
}
use octeam.Tasks.Text.{is_task_id, limit_result}

-- What a task file holds: a value of the shape of a task, JSON of another shape (or a file that is
-- refused unread), or no JSON.
pub data TaskFile : Type 0 where
  shaped : Task → TaskFile
  malformed : TaskFile
  no_json : TaskFile

pub record ClaimLock : Type 0 where
  pub holder : String
  pub modified_at : ℕ

pub record TaskStore : Type 0 where
  pub files : List (String × TaskFile)
  pub locks : List (String × ClaimLock)

abbrev pub claim_ttl_ms : ℕ
claim_ttl_ms = 30000

abbrev pub is_active : TaskStatus → Bool
is_active claimed = true
is_active in_progress = true
is_active _ = false

-- The rules of `isValidTask` beyond the types of the fields. An id that fits the pattern is short
-- enough.
unfoldable pub is_valid_task : Task → Bool
is_valid_task t =
    elim t.run_id [ none ↦ true | some r ↦ ltb 0 (length r) && leb (length r) 128 ]
    && all is_task_id t.blocked_by
    && (not (is_active t.status) || is_some t.owner)

-- What `readTaskFile` returns or throws: `null`, a task, or an error.
pub data Read : Type 0 where
  null : Read
  found : Task → Read
  throws : Read

abbrev pub checked : String → Task → Read
checked id t = if is_valid_task t && str_eq t.id id then found t else null

unfoldable pub read_task_file : TaskStore → String → Read
read_task_file s id = elim (lookup id s.files) [
  | none ↦ null
  | some malformed ↦ null
  | some no_json ↦ throws
  | some (shaped t) ↦ checked id t
]

unfoldable pub get_task : TaskStore → String → Result (Option Task)
get_task s id =
    if is_task_id id
    then elim (read_task_file s id) [
      | null ↦ ok none
      | found t ↦ ok (some t)
      | throws ↦ err (unreadable id)
    ]
    else err (invalid_task_id id)

-- A field of a patch: not given, or given, possibly as `undefined`.
pub data Field (A : Type 0) : Type 0 where
  absent : Field A
  given : Option A → Field A

abbrev pub assign {ℓ} : {A : Type ℓ} → A → Option A → A
assign old none = old
assign old (some new) = new

abbrev pub assign_field : {A : Type 0} → Option A → Field A → Option A
assign_field old absent = old
assign_field old (given new) = new

pub record Patch : Type 0 where
  pub status : Option TaskStatus
  pub owner : Field String
  pub blocked_by : Option (List String)
  pub claimed_at : Field ℕ
  pub result : Field Units

pub record Expected : Type 0 where
  pub owner : Option String
  pub status : Option TaskStatus
  pub claimed_at : Option ℕ

abbrev pub no_patch : Patch
no_patch = record {
  status = none;
  owner = absent;
  blocked_by = none;
  claimed_at = absent;
  result = absent;
}

abbrev pub expect_nothing : Expected
expect_nothing = record { owner = none; status = none; claimed_at = none }

-- An expectation that the task does not meet.
abbrev pub unmet {ℓ} : {A : Type ℓ} → (A → A → Bool) → Option A → Option A → Bool
unmet eq none actual = false
unmet eq (some e) none = true
unmet eq (some e) (some a) = not (eq a e)

unfoldable pub mismatch : String → Task → Expected → Option TaskError
mismatch id t e =
    if unmet str_eq e.owner t.owner
    then some (task_ownership id t.owner)
    else if unmet status_eq e.status (some t.status)
    then some (task_status id)
    else if unmet nat_eq e.claimed_at t.claimed_at
    then some (task_status id)
    else none

abbrev pub is_reviving : TaskStatus → TaskStatus → Bool
is_reviving deleted new = true
is_reviving completed pending = true
is_reviving completed claimed = true
is_reviving completed in_progress = true
is_reviving _ _ = false

-- `patch.owner === undefined`
abbrev pub gives_no_owner : Field String → Bool
gives_no_owner (given (some name)) = false
gives_no_owner _ = true

unfoldable pub transition_error :
    String → TaskStatus → Option TaskStatus → Field String → Option TaskError
transition_error id old none owner = none
transition_error id old (some new) owner =
    if status_eq new old
    then none
    else if is_reviving old new
    then some (cannot_revive id old new)
    else if status_eq new in_progress && not (status_eq old claimed) && gives_no_owner owner
    then some (requires_owner id old)
    else none

abbrev pub limit_field : Field Units → Field Units
limit_field (given (some text)) = given (some (limit_result text))
limit_field other = other

-- `Object.assign(task, patch, { updatedAt })`, after the limit on the result.
unfoldable pub apply_patch : ℕ → Task → Patch → Task
apply_patch now t p = record t {
  status = assign t.status p.status;
  owner = assign_field t.owner p.owner;
  blocked_by = assign t.blocked_by p.blocked_by;
  claimed_at = assign_field t.claimed_at p.claimed_at;
  result = assign_field t.result (limit_field p.result);
  updated_at = now;
}

-- The statuses outside the claim window, at which the claim lock goes.
abbrev pub leaves_claim : Option TaskStatus → Bool
leaves_claim none = false
leaves_claim (some claimed) = false
leaves_claim (some _) = true

unfoldable pub write_task : TaskStore → String → Task → Option TaskStatus → TaskStore
write_task s id t status = record {
  files = insert id (shaped t) s.files;
  locks = if leaves_claim status then erase id s.locks else s.locks;
}

-- The store after the call, and the task that it returns or the error that it throws.
unfoldable pub update_task : TaskStore → ℕ → String → Patch → Expected → TaskStore × Result Task
update_task s now id p e =
    if is_task_id id
    then elim (read_task_file s id) [
      | null ↦ (s, err (task_not_found id))
      | throws ↦ (s, err (unreadable id))
      | found t ↦ elim (or_else (mismatch id t e) (transition_error id t.status p.status p.owner)) [
        | some error ↦ (s, err error)
        | none ↦ let after = apply_patch now t p in (write_task s id after p.status, ok after)
      ]
    ]
    else (s, err (invalid_task_id id))
