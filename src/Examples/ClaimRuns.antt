-- ===== src/Examples/ClaimRuns.antt =====
-- Claims, updates and the sweep on the sample task list.
use octeam.Prelude.{
  ℕ, String, ◌≡◌, ◌≢◌, refl, false, none, some, [], ◌∷◌, ◌⊎◌, arith, eq_string, str_eq, sym, ◌∙◌,
  Bool-cases, inl, inr,
}
use mathlib.Core.Bool.{false≢true}
use octeam.Prelude.Assoc.{lookup, insert, erase}
use octeam.Tasks.Types.{
  TaskStatus, claimed, in_progress, completed, deleted, Task, task_already_claimed, Result, ok,
}
use octeam.Tasks.Text.{is_task_id}
use octeam.Tasks.Store.{
  shaped, TaskStore, is_valid_task, found, read_task_file, mismatch, transition_error, apply_patch,
  write_task, update_task, no_patch, expect_nothing, Patch, Expected, gives_no_owner,
}
use octeam.Tasks.Store.Update.{update_task_effect, update_task_expected}
use octeam.Tasks.Claims.{
  task_ids, list_ids, list_all_tasks, first_unreadable, first_invalid, list_strict, find_held,
  holds, acquire_claim_lock, unresolved_blocker, flip_to_claimed, claim_locked, claim_task,
}
use octeam.Tasks.Claims.Single.{Claim, SameFiles}
use octeam.Tasks.Claims.Exclusive.{
  claim_task-Claim, claim_task-HasOneEach, HasOneEach, claim_task_once,
}
use octeam.Tasks.Claims.Reaper.{claim_task_refused, reap_stale_claims}
use octeam.Tasks.Claims.Sweep.{Swept, reap_stale_claims-Swept}
use octeam.Examples.TaskList.{first_id, second_id, task_of, store_of, open_store}

abbrev ann_claim : TaskStore × Result Task
ann_claim = claim_task open_store 5 second_id "ann"

abbrev ann_task : Task
ann_task = record (task_of second_id claimed (some "ann") (some 5) (first_id ∷ [])) {
  updated_at = 5;
}

-- Ann claims the second task.
ann_claims : ann_claim ≡ (ann_claim.0, ok ann_task)
unfolding claim_task list_strict list_all_tasks list_ids task_ids first_unreadable first_invalid
    find_held acquire_claim_lock claim_locked unresolved_blocker flip_to_claimed update_task
    read_task_file is_valid_task mismatch transition_error apply_patch write_task is_task_id lookup
    insert erase
ann_claims = refl

claim_task-Claim_example : Claim open_store 5 second_id "ann" ann_claim.0 ann_task
claim_task-Claim_example =
    claim_task-Claim open_store 5 second_id "ann" ann_claim.0 ann_task ann_claims

-- Nobody holds a task of the list.
nobody_holds :
    (owner a : String) (t : Task) → read_task_file open_store a ≡ found t → holds owner t ≡ false
unfolding read_task_file lookup
nobody_holds owner a t r = elim (Bool-cases (str_eq first_id a)) [
  | inl e ↦ ground (arith, e, r)
  | inr e ↦ elim (Bool-cases (str_eq second_id a)) [
    | inl e1 ↦ ground (arith, e, e1, r)
    | inr e1 ↦ ground (arith, e, e1, r)
  ]
]

open_store-HasOneEach : HasOneEach open_store
open_store-HasOneEach owner a b t u shapes ra rb ha hb =
    absurd (false≢true (sym (nobody_holds owner a t ra) ∙ ha))

claim_task-HasOneEach_example : HasOneEach ann_claim.0
claim_task-HasOneEach_example =
    claim_task-HasOneEach open_store 5 second_id "ann" ann_claim.0 ann_task ann_claims
      open_store-HasOneEach

claim_task_once_example : claim_task ann_claim.0 60000 second_id "bob" ≢ (ann_claim.0, ok ann_task)
claim_task_once_example =
    claim_task_once open_store 5 second_id "ann" ann_claim.0 ann_task 60000 "bob" ann_claim.0
      ann_task ann_claims

-- The first task is completed, so it cannot be claimed.
claim_task_refused_example : SameFiles (claim_task open_store 5 first_id "ann").0 open_store
unfolding claim_task list_strict list_all_tasks list_ids task_ids first_unreadable first_invalid
    find_held acquire_claim_lock claim_locked unresolved_blocker flip_to_claimed update_task
    read_task_file is_valid_task mismatch transition_error apply_patch write_task is_task_id lookup
    insert erase
claim_task_refused_example =
    claim_task_refused open_store 5 first_id "ann" (claim_task open_store 5 first_id "ann").0
      (task_already_claimed first_id) refl

abbrev start_patch : Patch
start_patch = record no_patch { status = some in_progress }

abbrev held_store : TaskStore
held_store = store_of claimed (some "ann") (some 5)

abbrev by_ann : Expected
by_ann = record expect_nothing { owner = some "ann"; claimed_at = some 5 }

abbrev started : TaskStore × Result Task
started = update_task held_store 9 second_id start_patch by_ann

abbrev started_task : Task
started_task = record (task_of second_id in_progress (some "ann") (some 5) (first_id ∷ [])) {
  updated_at = 9;
}

ann_starts : started ≡ (started.0, ok started_task)
unfolding update_task read_task_file is_valid_task mismatch transition_error apply_patch write_task
    is_task_id lookup insert erase
ann_starts = refl

update_task_effect_example :
    (t : Task) × (read_task_file held_store second_id ≡ found t)
    × (t.status ≡ deleted → started_task.status ≡ deleted)
    × (t.status ≡ completed → (started_task.status ≡ completed) ⊎ (started_task.status ≡ deleted))
    × (started_task.status ≡ in_progress
        → (t.status ≡ in_progress)
          ⊎ ((t.status ≡ claimed) ⊎ (gives_no_owner start_patch.owner ≡ false)))
    × (lookup second_id started.0.files ≡ some (shaped started_task))
    × ((other : String)
        → other ≢ second_id
        → lookup other started.0.files ≡ lookup other held_store.files)
update_task_effect_example =
    update_task_effect held_store 9 second_id start_patch by_ann started.0 started_task ann_starts

update_task_expected_example :
    (t : Task) × (read_task_file held_store second_id ≡ found t)
    × ((name : String) → by_ann.owner ≡ some name → t.owner ≡ some name)
    × ((x : TaskStatus) → by_ann.status ≡ some x → t.status ≡ x)
    × ((at : ℕ) → by_ann.claimed_at ≡ some at → t.claimed_at ≡ some at)
update_task_expected_example =
    update_task_expected held_store 9 second_id start_patch by_ann started.0 started_task ann_starts

-- The sweep long after the claim: the task goes back to pending.
reap_stale_claims-Swept_example :
    Swept held_store 90000 none (reap_stale_claims held_store 90000 none).0 second_id
reap_stale_claims-Swept_example = reap_stale_claims-Swept held_store 90000 none second_id
