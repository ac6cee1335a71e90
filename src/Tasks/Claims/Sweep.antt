-- ===== src/Tasks/Claims/Sweep.antt =====
-- What the sweep of stale claims may change.
use octeam.Prelude.{
  ℕ, ◌+◌, ◌<◌, String, ◌≡◌, ◌≢◌, refl, sym, ap, ◌∙◌, subst, true, false, inl, inr, ◌⊎◌, Option,
  none, some, List, [], ◌∷◌, arith, str_eq, eq_iff, get_or, if◌then◌else◌, Bool-cases, Option-cases,
  lt_of_ltb,
}
use octeam.Prelude.Assoc.{lookup, lookup-erase}
use octeam.Tasks.Types.{pending, claimed, Task, ok}
use octeam.Tasks.Store.{
  shaped, TaskStore, claim_ttl_ms, found, read_task_file, update_task, apply_patch, write_task,
}
use octeam.Tasks.Store.Update.{
  update_task-Updated, update_task_err, update_task_expected, files-write_task, Read-cases,
}
use octeam.Tasks.Claims.{task_ids, list_ids, list_all_tasks}
use octeam.Tasks.Claims.Exclusive.{read-lookup, read-shaped, found-injective}
use octeam.Tasks.Claims.Reaper.{
  is_claim_stale, fresh_lock, lock_fresh, is_protected, reset_patch, expect_claim, is_reapable,
  reap_task, reap_tasks, reap_stale_claims, Result-cases,
}

-- The task is claimed, unprotected, with a lock that is not fresh and a claim older than the limit.
pub record IsStaleClaim (s : TaskStore) (now : ℕ) (protect : Option (List String)) (t : Task)
    : Type 0 where
  pub claim : t.status ≡ claimed
  pub unprotected : is_protected protect t ≡ false
  pub lock_stale : lock_fresh s now t.id ≡ false
  pub old : get_or t.claimed_at 0 + claim_ttl_ms < now

reapable-IsStaleClaim :
    (s : TaskStore) (now : ℕ) (protect : Option (List String)) (t : Task)
    → is_reapable s now protect t ≡ true
    → IsStaleClaim s now protect t
unfolding is_reapable is_claim_stale
reapable-IsStaleClaim s now protect t h = record {
  claim = ground (arith, h);
  unprotected = ground (arith, h);
  lock_stale = ground (arith, h);
  old = lt_of_ltb _ _ (ground (arith, h));
}

read-own_id : (s : TaskStore) (id : String) (t : Task) → read_task_file s id ≡ found t → t.id ≡ id
unfolding read_task_file
read-own_id s id t h = ground (arith, h, eq_iff t.id id)

-- Each task of the list is what its file held.
abbrev AllRead : TaskStore → List Task → Type 0
AllRead s [] = Unit
AllRead s (t ∷ ts) = (read_task_file s t.id ≡ found t) × AllRead s ts

list_ids-AllRead : (s : TaskStore) (ids : List String) → AllRead s (list_ids s ids)
unfolding list_ids
list_ids-AllRead s [] = tt
list_ids-AllRead s (id ∷ ids) = elim (Read-cases (read_task_file s id)) [
  | inl e ↦ rw (e, list_ids) (list_ids-AllRead s ids)
  | inr (inl e) ↦ rw (e, list_ids) (list_ids-AllRead s ids)
  | inr (inr (t, e)) ↦
      rw (e, list_ids)
        (
          subst (λ k. read_task_file s k ≡ found t) (sym (read-own_id s id t e)) e,
          list_ids-AllRead s ids,
        )
]

locks-write_pending :
    (s : TaskStore) (id k : String) (t : Task)
    → lookup k (write_task s id t (some pending)).locks
      ≡ (if str_eq id k then none else lookup k s.locks)
unfolding write_task
locks-write_pending s id k t = lookup-erase id k s.locks

store-reap_task :
    (cur : TaskStore) (now : ℕ) (t : Task)
    → (reap_task cur now t).0 ≡ (update_task cur now t.id reset_patch (expect_claim t)).0
unfolding reap_task
store-reap_task cur now t = ground arith

-- A pending task without an owner and a claim time, and else as before.
abbrev pub released : ℕ → Task → Task
released now t = record t { status = pending; owner = none; claimed_at = none; updated_at = now }

apply-released : (now : ℕ) (t : Task) → apply_patch now t reset_patch ≡ released now t
unfolding apply_patch
apply-released now t = refl

released_not_claimed : (now : ℕ) (t : Task) → (released now t).status ≢ claimed
released_not_claimed now t h = cc

module _ (s : TaskStore) (now : ℕ) (protect : Option (List String)) where
  -- What the sweep has done to a task file: nothing, or the reset of a stale claim.
  abbrev pub Swept : TaskStore → String → Type 0
  Swept cur k =
      ((lookup k cur.files ≡ lookup k s.files) × (lookup k cur.locks ≡ lookup k s.locks))
      ⊎ ((t : Task) × (read_task_file s k ≡ found t)
          × IsStaleClaim s now protect t
          × (lookup k cur.files ≡ some (shaped (released now t))))

  -- A task whose file is untouched is judged as at the start.
  stale_at_start :
      (cur : TaskStore) (t : Task)
      → lookup t.id cur.locks ≡ lookup t.id s.locks
      → IsStaleClaim cur now protect t
      → IsStaleClaim s now protect t
  stale_at_start cur t same c = record {
    claim = c.claim;
    unprotected = c.unprotected;
    lock_stale = sym (ap (fresh_lock now) same) ∙ c.lock_stale;
    old = c.old;
  }

  written-Swept :
      (cur after : TaskStore) (t result : Task) (k : String)
      → read_task_file s t.id ≡ found t
      → IsStaleClaim s now protect t
      → result ≡ released now t
      → after ≡ write_task cur t.id result (some pending)
      → Swept cur k
      → Swept after k
  written-Swept cur after t result k read stale written stored old =
      elim (Bool-cases (str_eq t.id k)) [
        | inl here ↦
            let same : t.id ≡ k = (eq_iff t.id k).0 here in
            inr (
              t,
              subst (λ x. read_task_file s x ≡ found t) same read,
              stale,
              rw stored
                  (files-write_task cur t.id k result (some pending) ∙ rw (here, written) refl),
            )
        | inr elsewhere ↦
            let files : lookup k after.files ≡ lookup k cur.files =
              rw stored (files-write_task cur t.id k result (some pending) ∙ rw elsewhere refl) in
            let locks : lookup k after.locks ≡ lookup k cur.locks =
              rw stored (locks-write_pending cur t.id k result ∙ rw elsewhere refl) in
            elim old [
              | inl (f, l) ↦ inl (files ∙ f, locks ∙ l)
              | inr (u, r, c, f) ↦ inr (u, r, c, files ∙ f)
            ]
      ]

  reap_task-Swept :
      (cur : TaskStore) (t : Task)
      → read_task_file s t.id ≡ found t
      → is_reapable cur now protect t ≡ true
      → ((k : String) → Swept cur k)
      → (k : String) → Swept (reap_task cur now t).0 k
  unfolding reap_task
  reap_task-Swept cur t read h swept k =
      let e = expect_claim t in
      let update = update_task cur now t.id reset_patch e in
      elim (Result-cases update.1) [
        | inr (error, failed) ↦
            let same : update.0 ≡ cur =
              update_task_err cur now t.id reset_patch e update.0 error (ground (arith, failed)) in
            let kept : Swept update.0 k = rw same (swept k) in
            subst (λ x. Swept x k) (sym (store-reap_task cur now t)) kept
        | inl (result, done) ↦
            let whole : update ≡ (update.0, ok result) = ground (arith, done) in
            let u = update_task-Updated cur now t.id reset_patch e update.0 result whole in
            let (x, rx, owner, status, at) =
              update_task_expected cur now t.id reset_patch e update.0 result whole in
            let stale = reapable-IsStaleClaim cur now protect t h in
            subst (λ x. Swept x k) (sym (store-reap_task cur now t))
              (elim (swept t.id) [
                | inl (f, l) ↦
                    let same : u.task ≡ t =
                      found-injective u.task t (sym u.read ∙ read-lookup cur s t.id f ∙ read) in
                    written-Swept cur update.0 t result k read (stale_at_start cur t l stale)
                      (u.written
                        ∙ ap (λ y. apply_patch now y reset_patch) same
                        ∙ apply-released now t)
                      u.stored (swept k)
                | inr (y, ry, c, f) ↦
                    let now_reset : x ≡ released now y =
                      read-shaped cur t.id (released now y) x f rx in
                    absurd (
                      released_not_claimed now y
                        (sym (ap (λ (z : Task). z.status) now_reset) ∙ status claimed refl))
              ])
      ]

  reap_tasks-Swept :
      (cur : TaskStore) (ts : List Task)
      → AllRead s ts
      → ((k : String) → Swept cur k)
      → (k : String) → Swept (reap_tasks cur now protect ts).0 k
  unfolding reap_tasks
  reap_tasks-Swept cur [] read swept k = swept k
  reap_tasks-Swept cur (t ∷ ts) read swept k = elim (Bool-cases (is_reapable cur now protect t)) [
    | inr keep ↦ rw keep (reap_tasks-Swept cur ts read.1 swept k)
    | inl reap ↦
        let next = reap_task-Swept cur t read.0 reap swept in
        elim (Option-cases (reap_task cur now t).1) [
          | inl e ↦ rw (reap, e) (reap_tasks-Swept (reap_task cur now t).0 ts read.1 next k)
          | inr (error, e) ↦ rw (reap, e) (next k)
        ]
  ]

  -- Whether the sweep ends early or not, each task file is as it was, or it held a claimed task whose
  -- owner is not protected, whose lock was not fresh and whose claim was older than the limit, and it
  -- now holds that task as pending, with no owner and no claim time; of its other fields only the
  -- time of the update changes.
  pub reap_stale_claims-Swept : (k : String) → Swept (reap_stale_claims s now protect).0 k
  unfolding reap_stale_claims list_all_tasks
  reap_stale_claims-Swept =
      reap_tasks-Swept s (list_all_tasks s) (list_ids-AllRead s (task_ids s.files))
        (λ k. inl (refl, refl))
