-- ===== src/Tasks/Claims/Reaper.antt =====
-- Refused claims, and the sweep `reapStaleClaims`.
use octeam.Prelude.{
  ℕ, ◌+◌, String, ◌≡◌, refl, Bool, false, inl, inr, ◌⊎◌, not, ◌&&◌, Option, none, some, List, [],
  ◌∷◌, arith, ltb, eq_string, get_or, if◌then◌else◌, Option-cases,
}
use octeam.Prelude.Assoc.{lookup}
use octeam.Prelude.Member.{includes}
use octeam.Tasks.Types.{pending, claimed, status_eq, Task, TaskError, task_status, Result, ok, err}
use octeam.Tasks.Store.{
  ClaimLock, TaskStore, claim_ttl_ms, Patch, Expected, given, no_patch, expect_nothing, update_task,
}
use octeam.Tasks.Store.Update.{update_task_err}
use octeam.Tasks.Claims.{
  list_all_tasks, is_fresh, acquire_claim_lock, claim_patch, expect_pending, flip_to_claimed,
  claim_locked, claim_task,
}
use octeam.Tasks.Claims.Single.{SameFiles, acquire-SameFiles}

-- `isClaimStale`; `now - claimedAt > ttl` with the sum on the other side.
unfoldable pub is_claim_stale : Bool → ℕ → ℕ → ℕ → Bool
is_claim_stale fresh claimed_at now ttl = not fresh && ltb (claimed_at + ttl) now

-- `lockFresh` of the claim lock; a missing lock is not fresh.
abbrev pub fresh_lock : ℕ → Option ClaimLock → Bool
fresh_lock now none = false
fresh_lock now (some lock) = is_fresh now lock

abbrev pub lock_fresh : TaskStore → ℕ → String → Bool
lock_fresh s now id = fresh_lock now (lookup id s.locks)

abbrev pub is_protected : Option (List String) → Task → Bool
is_protected none t = false
is_protected (some names) t = includes names (get_or t.owner "")

abbrev pub reset_patch : Patch
reset_patch = record no_patch { status = some pending; owner = given none; claimed_at = given none }

abbrev pub expect_claim : Task → Expected
expect_claim t = record expect_nothing { status = some claimed; claimed_at = t.claimed_at }

-- The tests of the loop's body.
unfoldable pub is_reapable : TaskStore → ℕ → Option (List String) → Task → Bool
is_reapable s now protect t =
    status_eq t.status claimed
    && not (is_protected protect t)
    && is_claim_stale (lock_fresh s now t.id) (get_or t.claimed_at 0) now claim_ttl_ms

-- A task that is no longer the claim that was judged is left alone; another error ends the sweep.
unfoldable pub reap_task : TaskStore → ℕ → Task → TaskStore × Option TaskError
reap_task s now t =
    let (after, result) = update_task s now t.id reset_patch (expect_claim t) in
    elim result [
      | ok u ↦ (after, none)
      | err (task_status id) ↦ (after, none)
      | err error ↦ (after, some error)
    ]

unfoldable pub reap_tasks :
    TaskStore → ℕ → Option (List String) → List Task → TaskStore × Option TaskError
reap_tasks s now protect [] = (s, none)
reap_tasks s now protect (t ∷ ts) =
    let skipped = reap_tasks s now protect ts in
    let (after, failure) = reap_task s now t in
    let swept = reap_tasks after now protect ts in
    if is_reapable s now protect t
    then elim failure [ none ↦ swept | some error ↦ (after, some error) ]
    else skipped

unfoldable pub reap_stale_claims :
    TaskStore → ℕ → Option (List String) → TaskStore × Option TaskError
reap_stale_claims s now protect = reap_tasks s now protect (list_all_tasks s)

pub Result-cases :
    {A : Type 0} (r : Result A) → ((a : A) × (r ≡ ok a)) ⊎ ((e : TaskError) × (r ≡ err e))
Result-cases (ok a) = inl (a, refl)
Result-cases (err e) = inr (e, refl)

module _ (s : TaskStore) (now : ℕ) (id owner : String) (after : TaskStore) (error : TaskError) where
  flip_err : flip_to_claimed s now id owner ≡ (after, err error) → SameFiles after s
  unfolding flip_to_claimed
  flip_err h =
      let update = update_task s now id (claim_patch now owner) expect_pending in
      elim (Result-cases update.1) [
        | inl (t, e) ↦ absurd (ground (arith, e, h))
        | inr (error', e) ↦
            let same : update.0 ≡ s =
              update_task_err s now id (claim_patch now owner) expect_pending update.0 error'
                (ground (arith, e)) in
            ground (arith, e, h, same)
      ]

  claim_locked_err : claim_locked s now id owner ≡ (after, err error) → SameFiles after s
  unfolding claim_locked
  claim_locked_err h = ground (arith, h, flip_err)

-- A refused claim leaves every task file as it was.
pub claim_task_refused :
    (s : TaskStore) (now : ℕ) (id owner : String) (after : TaskStore) (error : TaskError)
    → claim_task s now id owner ≡ (after, err error)
    → SameFiles after s
unfolding claim_task
claim_task_refused s now id owner after error h =
    elim (Option-cases (acquire_claim_lock s now id owner)) [
      | inl e ↦ ground (arith, e, h)
      | inr (taken, e) ↦
          let same : SameFiles taken s = acquire-SameFiles s taken now id owner e in
          let locked = claim_locked taken now id owner in
          elim (Result-cases locked.1) [
            | inl (t, e1) ↦ ground (arith, e, e1, h)
            | inr (error', e1) ↦
                let kept : SameFiles locked.0 taken =
                  claim_locked_err taken now id owner locked.0 error' (ground (arith, e1)) in
                ground (arith, e, e1, h, same, kept)
          ]
    ]
