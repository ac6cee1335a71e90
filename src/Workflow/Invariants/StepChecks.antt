-- ===== src/Workflow/Invariants/StepChecks.antt =====
-- src/orchestration/workflow/invariants.ts: `checkBranchMetadata`, `checkJoinStep`, `checkStep` and
-- `checkWorkflowInvariants`.
use octeam.Prelude.{
  ℕ, suc, String, Bool, false, not, ◌&&◌, Option, none, some, List, [], ◌∷◌, ◌++◌, get_or,
  get_elem?, length, nat_eq, str_eq, eq_string, if◌then◌else◌,
}
use octeam.Prelude.Member.{includes, index_of}
use octeam.Workflow.Types.{
  BranchMetadata, BranchRange, FanoutMetadata, JoinMetadata, StepKind, task, gate, fanout, join,
  Step, TaskView,
}
use octeam.Workflow.Ranges.{includes_workflow_index}
use octeam.Workflow.JoinPolicy.{is_true, join_policy_satisfied}
use octeam.Workflow.JoinPolicy.Ieee.{Fraction}
use octeam.Workflow.Dag.Joins.{fanout_of}
use octeam.Workflow.Fanout.{join_of, distinct_from, without}
use octeam.Workflow.Invariants.{
  Violation, skipped_incomplete, task_tries, branch_fanout_not_fanout, branch_join_not_join,
  branch_index_out_of_range, branch_join_points, branch_join_differs, branch_outside_range,
  branch_id_unknown, branch_without_range, branch_index_maps, join_metadata_missing,
  join_fanout_not_fanout, tail_out_of_bounds, tail_outside_fanout, fanout_points_to,
  tail_not_at_end, errored_unknown, survivor_unknown, branch_not_terminal, policy_violated, report,
  is_terminal_step, check_active_step_indices, check_fanout_step,
}
use octeam.Workflow.Invariants.GateChecks.{check_counter, check_gate_step}

-- The id that the fanout has at the branch's index.
abbrev pub check_declared : ℕ → BranchMetadata → Option String → List Violation
check_declared index b none = branch_index_out_of_range index b.branch_index ∷ []
check_declared index b (some id) =
    report (not (str_eq id b.branch_id)) (branch_index_maps index b.branch_index id)

abbrev pub check_own_range : ℕ → String → Option BranchRange → List Violation
check_own_range index id none = branch_without_range index id ∷ []
check_own_range index id (some range) =
    report (not (includes_workflow_index range index))
      (branch_outside_range index range.start_index range.end_index)

-- The branches that errored or survived are the fanout's.
unfoldable pub check_known : (String → Violation) → List String → List String → List Violation
unfolding includes
check_known violation known [] = []
check_known violation known (id ∷ ids) =
    report (not (includes known id)) (violation id) ++ check_known violation known ids

module _ {F : Type 0} where
  abbrev pub check_branch_join : List (Step F) → ℕ → BranchMetadata → List Violation
  check_branch_join steps index b = elim (join_of (get_elem? steps b.join_index)) [
    | none ↦ branch_join_not_join index b.join_index ∷ []
    | some j ↦
        report (not (nat_eq j.fanout_index b.fanout_index))
          (branch_join_points index b.join_index j.fanout_index)
  ]

  unfoldable pub check_branch_metadata : List (Step F) → ℕ → BranchMetadata → List Violation
  unfolding index_of
  check_branch_metadata steps index b = elim (fanout_of (get_elem? steps b.fanout_index)) [
    | none ↦ branch_fanout_not_fanout index b.fanout_index ∷ []
    | some m ↦
        check_branch_join steps index b
        ++ report (not (nat_eq b.join_index m.join_index))
            (branch_join_differs index b.join_index m.join_index)
        ++ elim (index_of m.branch_ids b.branch_id) [
          | none ↦ branch_id_unknown index b.branch_id ∷ []
          | some i ↦
              check_declared index b (get_elem? m.branch_ids b.branch_index)
              ++ check_own_range index b.branch_id (get_elem? m.branch_ranges i)
        ]
  ]

  abbrev pub check_own_branch : List (Step F) → ℕ → Option BranchMetadata → List Violation
  check_own_branch steps index none = []
  check_own_branch steps index (some b) = check_branch_metadata steps index b

  -- The end of the range of the tail's branch, where the fanout has one.
  abbrev pub check_tail_end : ℕ → ℕ → FanoutMetadata F → String → List Violation
  unfolding index_of
  check_tail_end index tail m id = elim (index_of m.branch_ids id) [
    | none ↦ []
    | some i ↦ elim (get_elem? m.branch_ranges i) [
      | none ↦ []
      | some range ↦
          report (not (nat_eq tail range.end_index)) (tail_not_at_end index tail range.end_index)
    ]
  ]

  abbrev pub check_tail : List (Step F) → ℕ → JoinMetadata F → FanoutMetadata F → ℕ → List Violation
  unfolding index_of
  check_tail steps index j m tail = elim (get_elem? steps tail) [
    | none ↦ tail_out_of_bounds index tail ∷ []
    | some step ↦ elim step.branch [
      | none ↦ tail_outside_fanout index tail ∷ []
      | some b ↦
          if nat_eq b.fanout_index j.fanout_index
          then check_tail_end index tail m b.branch_id
          else tail_outside_fanout index tail ∷ []
    ]
  ]

  unfoldable pub check_tails :
      List (Step F) → ℕ → JoinMetadata F → FanoutMetadata F → List ℕ → List Violation
  unfolding check_tail index_of
  check_tails steps index j m [] = []
  check_tails steps index j m (tail ∷ tails) =
      check_tail steps index j m tail ++ check_tails steps index j m tails

  -- The tails of the branches that have not errored, from `branch_index` on.
  unfoldable pub check_terminal :
      List (Step F) → ℕ → JoinMetadata F → ℕ → List String → List Violation
  unfolding includes
  check_terminal steps index j branch_index [] = []
  check_terminal steps index j branch_index (id ∷ ids) =
      let later = check_terminal steps index j (suc branch_index) ids in
      let terminal : Bool = elim (get_elem? j.branch_tail_indices branch_index) [
        | none ↦ false
        | some tail ↦ is_terminal_step (get_elem? steps tail)
      ] in
      if includes (get_or j.errored_branch_ids []) id
      then later
      else report (not terminal) (branch_not_terminal index id) ++ later

module _ {F : Type 0} ⦃fr : Fraction F⦄ where
  unfoldable pub check_completed_join :
      List (Step F) → ℕ → JoinMetadata F → FanoutMetadata F → List Violation
  unfolding join_policy_satisfied without distinct_from check_terminal
  check_completed_join steps index j m =
      let errored = get_or j.errored_branch_ids [] in
      report
        (not (
          join_policy_satisfied j (without errored m.branch_ids)
            (length (distinct_from [] errored))))
        (policy_violated index)
      ++ check_terminal steps index j 0 m.branch_ids

  unfoldable pub check_join_step :
      List (Step F) → ℕ → Step F → Option (JoinMetadata F) → List Violation
  unfolding check_tails check_known check_completed_join
  check_join_step steps index step none = join_metadata_missing index ∷ []
  check_join_step steps index step (some j) = elim (fanout_of (get_elem? steps j.fanout_index)) [
    | none ↦ join_fanout_not_fanout index j.fanout_index ∷ []
    | some m ↦
        report (not (nat_eq m.join_index index))
          (fanout_points_to index j.fanout_index m.join_index)
        ++ check_tails steps index j m j.branch_tail_indices
        ++ check_known (errored_unknown index) m.branch_ids (get_or j.errored_branch_ids [])
        ++ check_known (survivor_unknown index) m.branch_ids (get_or j.survivor_branch_ids [])
        ++ (if step.completed then check_completed_join steps index j m else [])
  ]

  unfoldable pub check_kind : List (Step F) → ℕ → Step F → StepKind F → List Violation
  unfolding check_gate_step check_fanout_step check_join_step
  check_kind steps index step (task t) =
      check_counter index task_tries t.task_attempts (get_or t.max_task_retries 0)
  check_kind steps index step (gate g) = check_gate_step steps index step g
  check_kind steps index step (fanout m) = check_fanout_step steps index m
  check_kind steps index step (join j) = check_join_step steps index step j

  unfoldable pub check_step : List (Step F) → ℕ → Step F → List Violation
  unfolding check_branch_metadata check_kind
  check_step steps index step =
      report (is_true step.skipped && not step.completed) (skipped_incomplete index)
      ++ check_own_branch steps index step.branch
      ++ check_kind steps index step step.kind

  -- The steps from an index on.
  unfoldable pub check_steps_from : List (Step F) → ℕ → List (Step F) → List Violation
  unfolding check_step
  check_steps_from steps index [] = []
  check_steps_from steps index (step ∷ later) =
      check_step steps index step ++ check_steps_from steps (suc index) later

  -- No violation is `{ ok: true }`.
  unfoldable pub check_workflow_invariants : TaskView F → List Violation
  unfolding check_active_step_indices check_steps_from
  check_workflow_invariants t =
      let steps = get_or t.steps [] in
      check_active_step_indices steps t.active_step_indices ++ check_steps_from steps 0 steps
