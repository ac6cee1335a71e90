-- ===== src/Tasks/Claims/Exclusive.antt =====
-- Claims exclude one another: a claimed task cannot be claimed again, and a member that claims holds
-- one task.
use octeam.Prelude.{
  ℕ, String, ◌≡◌, ◌≢◌, refl, sym, ap, ◌∙◌, true, false, inl, inr, some, arith, str_eq, eq_iff,
  Bool-cases,
}
use octeam.Prelude.Assoc.{lookup}
use octeam.Tasks.Types.{pending, claimed, Task, ok}
use octeam.Tasks.Text.{is_task_id}
use octeam.Tasks.Store.{shaped, TaskStore, Read, found, read_task_file, apply_patch}
use octeam.Tasks.Store.Update.{update_task-Updated, update_task_expected, files-write_task}
use octeam.Tasks.Claims.{task_ids, list_all_tasks, holds, claim_patch, expect_pending, claim_task}
use octeam.Tasks.Claims.Single.{
  SameFiles, read-SameFiles, find_held-none, read-includes, acquire-SameFiles,
  AllResolved-SameFiles, Claim, flip-Updated, claim_locked-flip, claim_task-locked,
}

apply_claim_patch :
    (now : ℕ) (owner : String) (t : Task)
    → ((apply_patch now t (claim_patch now owner)).status ≡ claimed)
      × ((apply_patch now t (claim_patch now owner)).owner ≡ some owner)
      × ((apply_patch now t (claim_patch now owner)).claimed_at ≡ some now)
unfolding apply_patch
apply_claim_patch now owner t = (refl, refl, refl)

pub found-injective : (t u : Task) → ◌≡◌ {A = Read} (found t) (found u) → t ≡ u
found-injective t u h = ground (arith, h)

module _ (s : TaskStore) (now : ℕ) (id owner : String) (after : TaskStore) (result : Task) where
  -- A claim succeeds only on a task in its file that is pending and whose blockers are all completed
  -- or deleted, and only for a member that holds no task. The returned task is claimed by the member
  -- at this time, its file holds it, and no other task file is changed.
  pub claim_task-Claim :
      claim_task s now id owner ≡ (after, ok result) → Claim s now id owner after result
  unfolding list_all_tasks
  claim_task-Claim h =
      let (taken, good, none_held, acquired, locked) =
        claim_task-locked s now id owner after result h in
      let same : SameFiles taken s = acquire-SameFiles s taken now id owner acquired in
      let (t, read, resolved, flip) = claim_locked-flip taken now id owner after result locked in
      let update = flip-Updated taken now id owner after result flip in
      let u =
        update_task-Updated taken now id (claim_patch now owner) expect_pending after result
          update in
      let (t', read', expected_owner, expected_status, expected_time) =
        update_task_expected taken now id (claim_patch now owner) expect_pending after result
          update in
      let (status, owned, stamped) = apply_claim_patch now owner u.task in
      record {
        task = t;
        id_shape = good;
        read = sym (read-SameFiles taken s id same) ∙ read;
        was_pending =
            ap (λ (x : Task). x.status) (found-injective t t' (sym read ∙ read'))
            ∙ expected_status pending refl;
        free = λ other x shape r.
            find_held-none owner s (task_ids s.files) other x none_held
              (read-includes s.files s.locks other x shape r) r;
        resolved = AllResolved-SameFiles taken s t.blocked_by same resolved;
        now_claimed = rw u.written status;
        owned = rw u.written owned;
        stamped = rw u.written stamped;
        files = λ other.
            rw (u.stored, files-write_task taken id other result (some claimed), same) refl;
      }

pub read-lookup :
    (a b : TaskStore) (id : String)
    → lookup id a.files ≡ lookup id b.files
    → read_task_file a id ≡ read_task_file b id
unfolding read_task_file
read-lookup a b id h = rw (h, read_task_file) refl

pub read-shaped :
    (s : TaskStore) (id : String) (t u : Task)
    → lookup id s.files ≡ some (shaped t)
    → read_task_file s id ≡ found u
    → u ≡ t
unfolding read_task_file
read-shaped s id t u h r = ground (arith, h, r)

holds_owner :
    (name owner : String) (t : Task) → t.owner ≡ some owner → holds name t ≡ true → name ≡ owner
holds_owner name owner t h k = ground (arith, h, k, eq_iff owner name)

-- No member holds two tasks of the list.
abbrev pub HasOneEach : TaskStore → Type 0
HasOneEach s =
    (owner a b : String) (t u : Task)
    → (is_task_id a ≡ true) × (is_task_id b ≡ true)
    → read_task_file s a ≡ found t
    → read_task_file s b ≡ found u
    → holds owner t ≡ true
    → holds owner u ≡ true
    → a ≡ b

module _ {s after : TaskStore} {now : ℕ} {id owner : String} {result : Task}
    (c : Claim s now id owner after result) where
  read_other :
      (k : String) (t : Task)
      → str_eq id k ≡ false
      → read_task_file after k ≡ found t
      → read_task_file s k ≡ found t
  read_other k t ne r = sym (read-lookup after s k (c.files k ∙ rw ne refl)) ∙ r

  read_claimed :
      (k : String) (t : Task) → str_eq id k ≡ true → read_task_file after k ≡ found t → t ≡ result
  read_claimed k t e r = read-shaped after k result t (c.files k ∙ rw e refl) r

  -- The member of the claim holds no other task afterwards.
  alone :
      (name k : String) (t : Task)
      → is_task_id k ≡ true
      → str_eq id k ≡ false
      → read_task_file after k ≡ found t
      → holds name t ≡ true
      → name ≢ owner
  alone name k t shape ne r h e = cc (h, c.free k t shape (read_other k t ne r), e)

  claim_keeps : HasOneEach s → HasOneEach after
  claim_keeps one name a b t u (shape_a, shape_b) ra rb ha hb = elim (Bool-cases (str_eq id a)) [
    | inl at_a ↦ elim (Bool-cases (str_eq id b)) [
      | inl at_b ↦ sym ((eq_iff id a).0 at_a) ∙ (eq_iff id b).0 at_b
      | inr off_b ↦ absurd (
          alone name b u shape_b off_b rb hb
            (holds_owner name owner result c.owned (rw (read_claimed a t at_a ra) at ha)))
    ]
    | inr off_a ↦ elim (Bool-cases (str_eq id b)) [
      | inl at_b ↦ absurd (
          alone name a t shape_a off_a ra ha
            (holds_owner name owner result c.owned (rw (read_claimed b u at_b rb) at hb)))
      | inr off_b ↦
          one name a b t u (shape_a, shape_b) (read_other a t off_a ra) (read_other b u off_b rb) ha
            hb
    ]
  ]

  claimed_once :
      (later : ℕ) (other : String) (after' : TaskStore) (result' : Task)
      → claim_task after later id other ≢ (after', ok result')
  claimed_once later other after' result' h =
      let c' = claim_task-Claim after later id other after' result' h in
      let same : c'.task ≡ result = read_claimed id c'.task ((eq_iff id id).1 refl) c'.read in
      let status : pending ≡ claimed =
        sym c'.was_pending ∙ ap (λ (t : Task). t.status) same ∙ c.now_claimed in
      cc status

module _ (s : TaskStore) (now : ℕ) (id owner : String) (after : TaskStore) (result : Task) where
  -- If no member holds two tasks, none does after a claim that succeeds.
  pub claim_task-HasOneEach :
      claim_task s now id owner ≡ (after, ok result) → HasOneEach s → HasOneEach after
  claim_task-HasOneEach h = claim_keeps (claim_task-Claim s now id owner after result h)

  -- On the store that a successful claim leaves, with no other call in between, a claim of the same
  -- task does not succeed, whoever makes it and at whatever time.
  pub claim_task_once :
      (later : ℕ) (other : String) (after' : TaskStore) (result' : Task)
      → claim_task s now id owner ≡ (after, ok result)
      → claim_task after later id other ≢ (after', ok result')
  claim_task_once later other after' result' h =
      claimed_once (claim_task-Claim s now id owner after result h) later other after' result'
