-- ===== src/Tasks/Store/Update.antt =====
-- What a successful update changes, which updates are refused, and that a refusal changes nothing.
use mathlib.Core.Bool.{false≢true}
use mathlib.Core.Option.{some-injective}
use octeam.Prelude.{
  ℕ, String, ◌≡◌, ◌≢◌, refl, sym, ap, ◌∙◌, Bool, true, false, inl, inr, Option, none, some, ◌⊎◌,
  arith, str_eq, eq_iff, nat_eq, nat_eq_iff, or_else, if◌then◌else◌, Bool-cases, Option-cases,
}
use octeam.Prelude.Assoc.{lookup, lookup-insert}
use octeam.Tasks.Types.{
  TaskStatus, claimed, in_progress, completed, deleted, status_eq, Task, TaskError, ok, err,
}
use octeam.Tasks.Text.{is_task_id}
use octeam.Tasks.Store.{
  shaped, TaskStore, Read, null, found, throws, read_task_file, Patch, Expected, mismatch,
  transition_error, apply_patch, write_task, update_task, gives_no_owner, unmet,
}

pub Read-cases : (r : Read) → (r ≡ null) ⊎ ((r ≡ throws) ⊎ ((t : Task) × (r ≡ found t)))
Read-cases null = inl refl
Read-cases throws = inr (inl refl)
Read-cases (found t) = inr (inr (t, refl))

-- An update that succeeds found a task that met the expectations and the matrix of transitions, and
-- wrote the patched task.
pub record Updated (s : TaskStore) (now : ℕ) (id : String) (p : Patch) (e : Expected)
    (after : TaskStore) (result : Task) : Type 0 where
  pub task : Task
  pub id_shape : is_task_id id ≡ true
  pub read : read_task_file s id ≡ found task
  pub met : mismatch id task e ≡ none
  pub allowed : transition_error id task.status p.status p.owner ≡ none
  pub written : result ≡ apply_patch now task p
  pub stored : after ≡ write_task s id result p.status

or_else-none : (a b : Option TaskError) → or_else a b ≡ none → (a ≡ none) × (b ≡ none)
or_else-none none b h = (refl, h)
or_else-none (some x) b h = absurd (cc)

pub files-write_task :
    (s : TaskStore) (id other : String) (t : Task) (status : Option TaskStatus)
    → lookup other (write_task s id t status).files
      ≡ (if str_eq id other then some (shaped t) else lookup other s.files)
unfolding write_task
files-write_task s id other t status = lookup-insert id other (shaped t) s.files

status_eq→eq : (a b : TaskStatus) → status_eq a b ≡ true → a ≡ b
status_eq→eq a b h = ground arith

unmet-false {ℓ} :
    {A : Type ℓ} (test : A → A → Bool)
    → ((x y : A) → test x y ≡ true → x ≡ y)
    → (expected actual : Option A) (x : A) → unmet test expected actual ≡ false
    → expected ≡ some x
    → actual ≡ some x
unmet-false test sound none actual x h k = absurd (cc)
unmet-false test sound (some y) none x h k = absurd (false≢true (sym h))
unmet-false test sound (some y) (some z) x h k = ground (arith, sound z y, h, k)

mismatch-none :
    (id : String) (t : Task) (e : Expected)
    → mismatch id t e ≡ none
    → ((name : String) → e.owner ≡ some name → t.owner ≡ some name)
      × ((x : TaskStatus) → e.status ≡ some x → t.status ≡ x)
      × ((at : ℕ) → e.claimed_at ≡ some at → t.claimed_at ≡ some at)
unfolding mismatch
mismatch-none id t e h = (
  λ name. unmet-false str_eq (λ x y. (eq_iff x y).0) e.owner t.owner name (ground (arith, h)),
  λ x k.
      some-injective t.status x
        (unmet-false status_eq status_eq→eq e.status (some t.status) x (ground (arith, h)) k),
  λ at.
      unmet-false nat_eq (λ x y. (nat_eq_iff x y).0) e.claimed_at t.claimed_at at
        (ground (arith, h)),
)

module _ (s : TaskStore) (now : ℕ) (id : String) (p : Patch) (e : Expected) where
  pub update_task-Updated :
      (after : TaskStore) (result : Task)
      → update_task s now id p e ≡ (after, ok result)
      → Updated s now id p e after result
  unfolding update_task
  update_task-Updated after result h = elim (Bool-cases (is_task_id id)) [
    | inr bad ↦ absurd (ground (arith, h, bad))
    | inl good ↦ elim (Read-cases (read_task_file s id)) [
      | inl e1 ↦ absurd (ground (arith, h, good, e1))
      | inr (inl e1) ↦ absurd (ground (arith, h, good, e1))
      | inr (inr (t, e1)) ↦
          elim (Option-cases
            (or_else (mismatch id t e) (transition_error id t.status p.status p.owner))) [
              | inr (error, e2) ↦ absurd (ground (arith, h, good, e1, e2))
              | inl e2 ↦
                  let (met, allowed) = or_else-none _ _ e2 in
                  record {
                    task = t;
                    id_shape = good;
                    read = e1;
                    met = met;
                    allowed = allowed;
                    written = ground (arith, h, good, e1, e2);
                    stored = ground (arith, h, good, e1, e2);
                  }
            ]
    ]
  ]

  pub update_task_err :
      (after : TaskStore) (error : TaskError)
      → update_task s now id p e ≡ (after, err error)
      → after ≡ s
  unfolding update_task
  update_task_err after error h = ground (arith, h)

  status-allowed :
      (t : Task)
      → transition_error id t.status p.status p.owner ≡ none
      → (t.status ≡ deleted → (apply_patch now t p).status ≡ deleted)
        × (t.status ≡ completed
            → ((apply_patch now t p).status ≡ completed) ⊎ ((apply_patch now t p).status ≡ deleted))
        × ((apply_patch now t p).status ≡ in_progress
            → (t.status ≡ in_progress) ⊎ ((t.status ≡ claimed) ⊎ (gives_no_owner p.owner ≡ false)))
  unfolding transition_error apply_patch
  status-allowed t h =
      (λ old. ground (arith, h, old), λ old. ground (arith, h, old), λ new. ground (arith, h, new))

  -- A successful update found the task in its file. A deleted task stays deleted, a completed one
  -- stays completed or becomes deleted, and a task that is in progress afterwards was in progress or
  -- claimed, or was given an owner. The file then holds the returned task, and no other file is
  -- changed.
  pub update_task_effect :
      (after : TaskStore) (result : Task)
      → update_task s now id p e ≡ (after, ok result)
      → (t : Task) × (read_task_file s id ≡ found t)
        × (t.status ≡ deleted → result.status ≡ deleted)
        × (t.status ≡ completed → (result.status ≡ completed) ⊎ (result.status ≡ deleted))
        × (result.status ≡ in_progress
            → (t.status ≡ in_progress) ⊎ ((t.status ≡ claimed) ⊎ (gives_no_owner p.owner ≡ false)))
        × (lookup id after.files ≡ some (shaped result))
        × ((other : String) → other ≢ id → lookup other after.files ≡ lookup other s.files)
  update_task_effect after result h =
      let u = update_task-Updated after result h in
      let (a, b, c) = status-allowed u.task u.allowed in
      (
        u.task,
        u.read,
        λ old. ap (λ (r : Task). r.status) u.written ∙ a old,
        λ old. rw u.written (b old),
        λ new. c (sym (ap (λ (r : Task). r.status) u.written) ∙ new),
        rw u.stored (ground (arith, files-write_task s id id result p.status, eq_iff id id)),
        λ other ne.
            rw u.stored
              (ground (arith, files-write_task s id other result p.status, eq_iff id other)),
      )

  -- A successful update with an expected owner, status or claim time found a task with exactly that
  -- owner, status and claim time.
  pub update_task_expected :
      (after : TaskStore) (result : Task)
      → update_task s now id p e ≡ (after, ok result)
      → (t : Task) × (read_task_file s id ≡ found t)
        × ((name : String) → e.owner ≡ some name → t.owner ≡ some name)
        × ((x : TaskStatus) → e.status ≡ some x → t.status ≡ x)
        × ((at : ℕ) → e.claimed_at ≡ some at → t.claimed_at ≡ some at)
  update_task_expected after result h =
      let u = update_task-Updated after result h in
      let (owner, status, claimed_at) = mismatch-none id u.task e u.met in
      (u.task, u.read, owner, status, claimed_at)
