-- ===== src/Tasks/Claims/Single.antt =====
-- What a successful claim means, and that no member ever holds two tasks by claiming.
use mathlib.Core.Bool.{false≢true}
use octeam.Prelude.{
  ℕ, String, ◌≡◌, refl, sym, ◌∙◌, true, false, inl, inr, ◌⊎◌, none, some, List, [], ◌∷◌, arith,
  str_eq, eq_iff, eq_string, or_else, if◌then◌else◌, Bool-cases, Option-cases,
}
use octeam.Prelude.Assoc.{lookup}
use octeam.Prelude.Member.{includes}
use octeam.Tasks.Types.{pending, claimed, completed, deleted, status_eq, Task, ok}
use octeam.Tasks.Text.{is_task_id}
use octeam.Tasks.Store.{TaskFile, shaped, ClaimLock, TaskStore, found, read_task_file, update_task}
use octeam.Tasks.Store.Update.{Read-cases}
use octeam.Tasks.Claims.{
  task_ids, list_ids, list_all_tasks, first_unreadable, first_invalid, list_strict, holds,
  find_held, acquire_claim_lock, unresolved_blocker, claim_patch, expect_pending, flip_to_claimed,
  claim_locked, claim_task,
}

-- Two stores with the same task files.
abbrev pub SameFiles : TaskStore → TaskStore → Type 0
SameFiles a b = a.files ≡ b.files

pub read-SameFiles :
    (a b : TaskStore) (id : String) → SameFiles a b → read_task_file a id ≡ read_task_file b id
unfolding read_task_file
read-SameFiles a b id h = rw h refl

-- Every blocker was read, and is completed or deleted.
abbrev pub AllResolved : TaskStore → List String → Type 0
AllResolved s [] = Unit
AllResolved s (b ∷ bs) =
    ((t : Task) × (read_task_file s b ≡ found t) × ((t.status ≡ completed) ⊎ (t.status ≡ deleted)))
    × AllResolved s bs

unresolved_blocker-none :
    (s : TaskStore) (id : String) (bs : List String)
    → first_unreadable s bs ≡ none
    → unresolved_blocker s id bs ≡ none
    → AllResolved s bs
unfolding first_unreadable unresolved_blocker
unresolved_blocker-none s id [] h k = tt
unresolved_blocker-none s id (b ∷ bs) h k = elim (Read-cases (read_task_file s b)) [
  | inl e ↦ absurd (ground (arith, e, k))
  | inr (inl e) ↦ absurd (ground (arith, e, h))
  | inr (inr (t, e)) ↦ (
    (t, e, ground (arith, e, k)),
    unresolved_blocker-none s id bs (ground (arith, e, h)) (ground (arith, e, k)),
  )
]

-- No task of the list is held by the member.
pub find_held-none :
    (owner : String) (s : TaskStore) (ids : List String) (id : String) (t : Task)
    → find_held owner (list_ids s ids) ≡ none
    → includes ids id ≡ true
    → read_task_file s id ≡ found t
    → holds owner t ≡ false
unfolding find_held list_ids includes
find_held-none owner s [] id t h k r = absurd (false≢true k)
find_held-none owner s (i ∷ ids) id t h k r = elim (Bool-cases (str_eq i id)) [
  | inl e ↦
      let same : read_task_file s i ≡ found t = rw ((eq_iff i id).0 e) r in ground (arith, same, h)
  | inr ne ↦ find_held-none owner s ids id t (ground (arith, h)) (ground (arith, ne, k)) r
]

pub read-includes :
    (files : List (String × TaskFile)) (locks : List (String × ClaimLock)) (id : String) (t : Task)
    → is_task_id id ≡ true
    → read_task_file (record { files = files; locks = locks }) id ≡ found t
    → includes (task_ids files) id ≡ true
unfolding read_task_file task_ids includes lookup
read-includes [] locks id t h r = absurd (ground (arith, r))
read-includes ((i, f) ∷ files) locks id t h r = elim (Bool-cases (str_eq i id)) [
  | inl e ↦ let same : i ≡ id = (eq_iff i id).0 e in ground (arith, same, h, eq_iff i id)
  | inr ne ↦ ground (arith, ne, eq_iff i id, read-includes files locks id t h)
]

pub acquire-SameFiles :
    (s taken : TaskStore) (now : ℕ) (id owner : String)
    → acquire_claim_lock s now id owner ≡ some taken
    → SameFiles taken s
unfolding acquire_claim_lock
acquire-SameFiles s taken now id owner h = ground (arith, h)

pub AllResolved-SameFiles :
    (a b : TaskStore) (bs : List String) → SameFiles a b → AllResolved a bs → AllResolved b bs
AllResolved-SameFiles a b [] h r = tt
AllResolved-SameFiles a b (x ∷ xs) h ((t, e, how), r) =
    ((t, sym (read-SameFiles a b x h) ∙ e, how), AllResolved-SameFiles a b xs h r)

-- A claim that succeeds: the task that it found, and the store that it left.
pub record Claim (s : TaskStore) (now : ℕ) (id owner : String) (after : TaskStore) (result : Task)
    : Type 0 where
  pub task : Task
  pub id_shape : is_task_id id ≡ true
  pub read : read_task_file s id ≡ found task
  pub was_pending : task.status ≡ pending
  pub free :
      (other : String) (t : Task)
      → is_task_id other ≡ true
      → read_task_file s other ≡ found t
      → holds owner t ≡ false
  pub resolved : AllResolved s task.blocked_by
  pub now_claimed : result.status ≡ claimed
  pub owned : result.owner ≡ some owner
  pub stamped : result.claimed_at ≡ some now
  pub files :
      (other : String)
      → lookup other after.files
        ≡ (if str_eq id other then some (shaped result) else lookup other s.files)

module _ (s : TaskStore) (now : ℕ) (id owner : String) (after : TaskStore) (result : Task) where
  pub flip-Updated :
      flip_to_claimed s now id owner ≡ (after, ok result)
      → update_task s now id (claim_patch now owner) expect_pending ≡ (after, ok result)
  unfolding flip_to_claimed
  flip-Updated h = ground (arith, h)

  pub claim_locked-flip :
      claim_locked s now id owner ≡ (after, ok result)
      → (t : Task) × (read_task_file s id ≡ found t)
        × AllResolved s t.blocked_by
        × (flip_to_claimed s now id owner ≡ (after, ok result))
  unfolding claim_locked
  claim_locked-flip h = elim (Read-cases (read_task_file s id)) [
    | inl e ↦ absurd (ground (arith, e, h))
    | inr (inl e) ↦ absurd (ground (arith, e, h))
    | inr (inr (t, e)) ↦ elim (Bool-cases (status_eq t.status pending)) [
      | inr other ↦ absurd (ground (arith, e, other, h))
      | inl is_pending ↦ elim (Option-cases (first_unreadable s t.blocked_by)) [
        | inr (x, e1) ↦ absurd (ground (arith, e, is_pending, e1, h))
        | inl e1 ↦ elim (Option-cases (unresolved_blocker s id t.blocked_by)) [
          | inr (x, e2) ↦ absurd (ground (arith, e, is_pending, e1, e2, h))
          | inl e2 ↦ (
            t,
            e,
            unresolved_blocker-none s id t.blocked_by e1 e2,
            ground (arith, e, is_pending, e1, e2, h),
          )
        ]
      ]
    ]
  ]

  pub claim_task-locked :
      claim_task s now id owner ≡ (after, ok result)
      → (taken : TaskStore) × (is_task_id id ≡ true)
        × (find_held owner (list_all_tasks s) ≡ none)
        × (acquire_claim_lock s now id owner ≡ some taken)
        × (claim_locked taken now id owner ≡ (after, ok result))
  unfolding claim_task list_strict
  claim_task-locked h = elim (Bool-cases (is_task_id id)) [
    | inr bad ↦ absurd (ground (arith, bad, h))
    | inl good ↦
        elim (Option-cases
          (or_else (first_unreadable s (task_ids s.files)) (first_invalid s (task_ids s.files)))) [
            | inr (x, e) ↦ absurd (ground (arith, good, e, h))
            | inl e ↦ elim (Option-cases (find_held owner (list_all_tasks s))) [
              | inr (x, e1) ↦ absurd (ground (arith, good, e, e1, h))
              | inl e1 ↦ elim (Option-cases (acquire_claim_lock s now id owner)) [
                | inl e2 ↦ absurd (ground (arith, good, e, e1, e2, h))
                | inr (taken, e2) ↦ (taken, good, e1, e2, ground (arith, good, e, e1, e2, h))
              ]
            ]
          ]
  ]
