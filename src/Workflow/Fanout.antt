-- ===== src/Workflow/Fanout.antt =====
-- The branch errors of src/orchestration/workflow/fanout.ts: a member failed, and its branch with it.
pub mod Marking
pub mod Errored
use octeam.Prelude.{
  ℕ, zero, suc, ◌+◌, ◌-◌, String, Bool, true, false, not, ◌&&◌, ◌||◌, Option, none, some, List, [],
  ◌∷◌, ◌++◌, get_or, get_elem?, modify, all, is_some, length, nat_eq, eq_string, if◌then◌else◌,
}
use octeam.Prelude.Member.{includes, push_unique}
use octeam.Workflow.Types.{
  BranchMetadata, JoinMetadata, StepKind, task, gate, fanout, join, Step, TaskView,
}
use octeam.Workflow.JoinPolicy.{join_policy_impossible}
use octeam.Workflow.JoinPolicy.Ieee.{Fraction}
use octeam.Workflow.Dag.Actors.{
  is_name, ensemble, ensemble_result, sorted_workflow_indices, get_active_workflow_step_indices,
  find_active_workflow_step_index_for_member, record_unavailable_ensemble_verifier,
}
use octeam.Workflow.Dag.Joins.{is_same_workflow_branch, mark_skipped, fanout_of, branch_id?}

-- Why a fanout failed, with the number of the step as it is displayed.
pub data FailReason : Type 0 where
  all_errored : ℕ → FailReason
  over_tolerance : ℕ → FailReason

pub data FanoutErrorResult : Type 0 where
  not_fanout : FanoutErrorResult
  within_tolerance : FanoutErrorResult
  failed : FailReason → FanoutErrorResult

-- `[...new Set(ids)]`, after the ids that were already taken
unfoldable pub distinct_from : List String → List String → List String
unfolding push_unique includes
distinct_from taken [] = taken
distinct_from taken (id ∷ ids) = distinct_from (push_unique taken id) ids

-- `ids.filter(id => !excluded.has(id))`
unfoldable pub without : List String → List String → List String
unfolding includes
without excluded [] = []
without excluded (id ∷ ids) =
    let rest = without excluded ids in if includes excluded id then rest else id ∷ rest

abbrev push_branch_id : List String → Option String → List String
push_branch_id ids none = ids
push_branch_id ids (some id) = push_unique ids id

-- `next.length > 0 ? next : [joinIndex]`
abbrev pub or_join : List ℕ → ℕ → List ℕ
or_join [] join_index = join_index ∷ []
or_join (i ∷ is) join_index = i ∷ is

module _ {F : Type 0} where
  -- `step?.kind === "join" ? step.join : undefined`
  abbrev pub join_kind : StepKind F → Option (JoinMetadata F)
  join_kind (join m) = m
  join_kind _ = none

  abbrev pub join_of : Option (Step F) → Option (JoinMetadata F)
  join_of none = none
  join_of (some step) = join_kind step.kind

  abbrev pub actor_of_kind : StepKind F → Option String
  actor_of_kind (task t) = some t.member
  actor_of_kind (gate g) = g.verifier
  actor_of_kind _ = none

  abbrev actor_or : StepKind F → Option String → Option String
  actor_or (fanout m) dispatched = none
  actor_or kind none = actor_of_kind kind
  actor_or kind (some name) = some name

  unfoldable pub workflow_step_actor_name : Step F → Option String
  workflow_step_actor_name step = actor_or step.kind step.dispatched_actor

  tail_branch_ids : List (Step F) → List ℕ → List String → List String
  unfolding push_unique includes
  tail_branch_ids steps [] ids = ids
  tail_branch_ids steps (t ∷ ts) ids = elim (get_elem? steps t) [
    | none ↦ tail_branch_ids steps ts ids
    | some tail ↦ tail_branch_ids steps ts (push_branch_id ids (branch_id? tail))
  ]

  unfoldable pub branch_ids_for_join : List (Step F) → JoinMetadata F → List String
  unfolding tail_branch_ids
  branch_ids_for_join steps j = elim (fanout_of (get_elem? steps j.fanout_index)) [
    | some m ↦ m.branch_ids
    | none ↦ tail_branch_ids steps j.branch_tail_indices []
  ]

  unfoldable pub skip_in_branch : BranchMetadata → Step F → Step F
  unfolding is_same_workflow_branch mark_skipped
  skip_in_branch branch step =
      if not (is_same_workflow_branch step branch) || step.completed
      then step
      else mark_skipped step

  -- `n` steps from `index` on
  unfoldable pub skip_range : BranchMetadata → ℕ → ℕ → List (Step F) → List (Step F)
  unfolding skip_in_branch
  skip_range branch zero index steps = steps
  skip_range branch (suc n) index steps =
      skip_range branch n (suc index) (modify steps index (skip_in_branch branch))

  -- The first index of the branch, and the first behind it.
  unfoldable pub branch_span : List (Step F) → BranchMetadata → ℕ × ℕ
  branch_span steps branch = elim (fanout_of (get_elem? steps branch.fanout_index)) [
    | none ↦ (branch.fanout_index + 1, branch.join_index)
    | some m ↦ elim (get_elem? m.branch_ranges branch.branch_index) [
      | none ↦ (branch.fanout_index + 1, branch.join_index)
      | some range ↦ (range.start_index, range.end_index + 1)
    ]
  ]

  unfoldable pub mark_workflow_branch_steps_skipped : List (Step F) → BranchMetadata → List (Step F)
  unfolding branch_span skip_range
  mark_workflow_branch_steps_skipped steps branch =
      let span = branch_span steps branch in skip_range branch (span.1 - span.0) span.0 steps

  unfoldable pub outside_branch : List (Step F) → BranchMetadata → ℕ → Bool
  unfolding is_same_workflow_branch
  outside_branch steps branch i = elim (get_elem? steps i) [
    | none ↦ true
    | some step ↦ not (is_same_workflow_branch step branch)
  ]

  unfoldable pub keep_outside : List (Step F) → BranchMetadata → List ℕ → List ℕ
  unfolding outside_branch
  keep_outside steps branch [] = []
  keep_outside steps branch (i ∷ is) =
      let rest = keep_outside steps branch is in
      if outside_branch steps branch i then i ∷ rest else rest

  unfoldable pub remove_active_workflow_branch : TaskView F → BranchMetadata → TaskView F
  unfolding keep_outside sorted_workflow_indices get_active_workflow_step_indices
  remove_active_workflow_branch t branch =
      let next = keep_outside (get_or t.steps []) branch (get_active_workflow_step_indices t) in
      let active = sorted_workflow_indices (or_join next branch.join_index) in
      record t {
        active_step_indices = some active;
        current_stage_index = get_or (get_elem? active 0) branch.join_index;
      }

  unfoldable pub has_errored : List (Step F) → BranchMetadata → Bool
  unfolding includes
  has_errored steps branch = elim (join_of (get_elem? steps branch.join_index)) [
    | none ↦ false
    | some j ↦ includes (get_or j.errored_branch_ids []) branch.branch_id
  ]

  unfoldable pub is_verifier : StepKind F → String → Bool
  unfolding includes
  is_verifier kind name = elim (ensemble kind) [
    | none ↦ false
    | some (g, names) ↦ includes names name
  ]

  unfoldable pub recorded_branch : List (Step F) → String → List (Step F) → Option BranchMetadata
  unfolding has_errored is_verifier workflow_step_actor_name
  recorded_branch steps name [] = none
  recorded_branch steps name (step ∷ later) =
      let rest = recorded_branch steps name later in
      elim step.branch [
        | none ↦ rest
        | some branch ↦
            if (is_name (workflow_step_actor_name step) name || is_verifier step.kind name)
              && has_errored steps branch
            then some branch
            else rest
      ]

  unfoldable pub recorded_errored_branch_for_member : List (Step F) → String → Option BranchMetadata
  unfolding recorded_branch
  recorded_errored_branch_for_member steps name = recorded_branch steps name steps

  -- `joinStep.join = { ...join, erroredBranchIds, survivorBranchIds }`
  unfoldable pub with_errored : List (Step F) → JoinMetadata F → String → JoinMetadata F
  unfolding distinct_from without branch_ids_for_join
  with_errored steps j id =
      let errored = distinct_from [] (get_or j.errored_branch_ids [] ++ id ∷ []) in
      record j {
        errored_branch_ids = some errored;
        survivor_branch_ids = some (without errored (branch_ids_for_join steps j));
      }

  abbrev pub set_join : JoinMetadata F → Step F → Step F
  set_join j step = record step { kind = join (some j) }

  -- A gate whose verifiers all have a result no longer counts as dispatched.
  unfoldable pub release_resolved : Step F → Step F
  release_resolved step = elim (ensemble step.kind) [
    | none ↦ step
    | some (g, names) ↦
        if all (λ v. is_some (ensemble_result g v)) names
        then record step { runtime = record step.runtime { dispatched_at = none } }
        else step
  ]

  -- An active step outside of all branches: only a verifier of an ensemble gate is tolerated.
  unfoldable pub fail_top_level : TaskView F → ℕ → String → TaskView F × FanoutErrorResult
  unfolding record_unavailable_ensemble_verifier release_resolved
  fail_top_level t i name =
      let steps = get_or t.steps [] in
      let (after, recorded) = record_unavailable_ensemble_verifier (get_elem? steps i) name in
      elim after [
        | none ↦ (t, not_fanout)
        | some step ↦
            if recorded
            then (
              record t { steps = some (modify steps i (λ old. release_resolved step)) },
              within_tolerance,
            )
            else (t, not_fanout)
      ]

  unfoldable pub branch_at : List (Step F) → ℕ → Option BranchMetadata
  branch_at steps i = elim (get_elem? steps i) [ none ↦ none | some step ↦ step.branch ]

module _ {F : Type 0} ⦃fr : Fraction F⦄ where
  unfoldable pub evaluate_workflow_fanout_error : List (Step F) → ℕ → FanoutErrorResult
  unfolding branch_ids_for_join distinct_from without join_policy_impossible
  evaluate_workflow_fanout_error steps join_index = elim (join_of (get_elem? steps join_index)) [
    | none ↦ not_fanout
    | some j ↦
        let branch_ids = branch_ids_for_join steps j in
        let errored = distinct_from [] (get_or j.errored_branch_ids []) in
        let remaining = length (without errored branch_ids) in
        if join_policy_impossible j errored remaining (length branch_ids)
        then (if nat_eq remaining 0
            then failed (all_errored (j.fanout_index + 1))
            else failed (over_tolerance (j.fanout_index + 1)))
        else within_tolerance
  ]

  -- From the new `join` of the join step on.
  unfoldable pub fail_branch :
      TaskView F → BranchMetadata → JoinMetadata F → TaskView F × FanoutErrorResult
  unfolding with_errored mark_workflow_branch_steps_skipped remove_active_workflow_branch
      evaluate_workflow_fanout_error
  fail_branch t branch j =
      let steps = get_or t.steps [] in
      let joined =
        modify steps branch.join_index (set_join (with_errored steps j branch.branch_id)) in
      let skipped = mark_workflow_branch_steps_skipped joined branch in
      (
        remove_active_workflow_branch (record t { steps = some skipped }) branch,
        evaluate_workflow_fanout_error skipped branch.join_index,
      )

  unfoldable pub fail_found_branch :
      TaskView F → Option BranchMetadata → TaskView F × FanoutErrorResult
  unfolding fail_branch
  fail_found_branch t none = (t, not_fanout)
  fail_found_branch t (some branch) =
      elim (join_of (get_elem? (get_or t.steps []) branch.join_index)) [
        | none ↦ (t, not_fanout)
        | some j ↦ fail_branch t branch j
      ]

  unfoldable pub mark_workflow_fanout_branch_errored :
      TaskView F → String → TaskView F × FanoutErrorResult
  unfolding find_active_workflow_step_index_for_member branch_at fail_top_level fail_found_branch
      recorded_errored_branch_for_member
  mark_workflow_fanout_branch_errored t name =
      let steps = get_or t.steps [] in
      elim (find_active_workflow_step_index_for_member t name) [
        | none ↦ fail_found_branch t (recorded_errored_branch_for_member steps name)
        | some i ↦ elim (branch_at steps i) [
          | none ↦ fail_top_level t i name
          | some branch ↦ fail_found_branch t (some branch)
        ]
      ]
