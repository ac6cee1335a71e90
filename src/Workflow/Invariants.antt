-- ===== src/Workflow/Invariants.antt =====
-- src/orchestration/workflow/invariants.ts: the checks of a restored task's active steps and of its
-- fanout markers. A violation is a value with the numbers that its message shows.
pub mod Active
pub mod Branches
pub mod Fanouts
pub mod GateChecks
pub mod StepChecks
pub mod Gotos
use octeam.Prelude.{
  ℕ, zero, suc, ◌-◌, String, Bool, false, not, ◌&&◌, ◌||◌, Option, none, some, List, [], ◌∷◌, ◌++◌,
  get_or, get_elem?, any, length, leb, ltb, nat_eq, str_eq, eq_string, eq_nat, if◌then◌else◌,
  is_some,
}
use octeam.Prelude.Member.{includes}
use octeam.Workflow.Types.{
  BranchMetadata, BranchRange, FanoutMetadata, JoinMetadata, StepKind, task, gate, fanout, join,
  Step,
}
use octeam.Workflow.Ranges.{ranges_overlap}
use octeam.Workflow.JoinPolicy.{is_true, join_policy_satisfied}
use octeam.Workflow.JoinPolicy.Ieee.{Fraction}
use octeam.Workflow.Dag.Joins.{fanout_of}
use octeam.Workflow.Fanout.{join_of, distinct_from}

-- Why an active step cannot advance.
pub data Stuck : Type 0 where
  is_completed fanout_cannot_advance join_cannot_advance : Stuck

pub data GotoField : Type 0 where
  pass_goto fail_goto invalid_goto : GotoField

pub data Counter : Type 0 where
  task_tries fail_tries invalid_tries malformed_tries timeout_tries jumps loops : Counter

pub data Violation : Type 0 where
  active_not_sorted active_duplicate active_out_of_bounds : ℕ → ℕ → Violation
  active_stuck : ℕ → ℕ → Stuck → Violation
  fanout_metadata_missing : ℕ → Violation
  fanout_join_not_join : ℕ → ℕ → Violation
  count_mismatch : ℕ → Violation
  range_empty range_out_of_bounds range_before_fanout range_after_join : ℕ → ℕ → Violation
  range_overlaps : ℕ → ℕ → ℕ → Violation
  no_branch_metadata : ℕ → ℕ → Violation
  branch_mismatch : ℕ → ℕ → Violation
  skipped_incomplete : ℕ → Violation
  counter_exceeds : ℕ → Counter → ℕ → ℕ → Violation
  no_previous_target both_verifiers : ℕ → Violation
  not_a_target verifier_is_member ensemble_has_member : ℕ → ℕ → Violation
  goto_out_of_bounds goto_to_self goto_to_marker goto_crosses_branch goto_into_branch :
      ℕ → GotoField → ℕ → Violation
  branch_fanout_not_fanout branch_join_not_join branch_index_out_of_range : ℕ → ℕ → Violation
  branch_join_points branch_join_differs branch_outside_range : ℕ → ℕ → ℕ → Violation
  branch_id_unknown branch_without_range : ℕ → String → Violation
  branch_index_maps : ℕ → ℕ → String → Violation
  join_metadata_missing : ℕ → Violation
  join_fanout_not_fanout tail_out_of_bounds tail_outside_fanout : ℕ → ℕ → Violation
  fanout_points_to tail_not_at_end : ℕ → ℕ → ℕ → Violation
  errored_unknown survivor_unknown branch_not_terminal : ℕ → String → Violation
  policy_violated : ℕ → Violation

-- `if (test) violations.push(violation)`
abbrev pub report : Bool → Violation → List Violation
report test violation = if test then violation ∷ [] else []

module _ {F : Type 0} where
  abbrev pub is_index_in_bounds : List (Step F) → ℕ → Bool
  is_index_in_bounds steps index = ltb index (length steps)

  abbrev pub is_terminal_step : Option (Step F) → Bool
  is_terminal_step none = false
  is_terminal_step (some step) = step.completed || is_true step.skipped

  abbrev pub range_advances : List (Step F) → ℕ → BranchRange → Bool
  range_advances steps join_index range =
      leb range.start_index range.end_index
      && is_index_in_bounds steps range.start_index
      && ltb range.end_index join_index

  unfoldable pub can_fanout_advance : List (Step F) → Option (FanoutMetadata F) → Bool
  can_fanout_advance steps none = false
  can_fanout_advance steps (some m) =
      is_some (join_of (get_elem? steps m.join_index))
      && any (range_advances steps m.join_index) m.branch_ranges

  -- The surviving branch ids from `branch_index` on, `none` where one is not terminal.
  unfoldable pub survivors_from :
      List (Step F) → JoinMetadata F → ℕ → List String → Option (List String)
  unfolding includes
  survivors_from steps j branch_index [] = some []
  survivors_from steps j branch_index (id ∷ ids) =
      let rest = survivors_from steps j (suc branch_index) ids in
      if includes (get_or j.errored_branch_ids []) id
      then rest
      else elim (get_elem? j.branch_tail_indices branch_index) [
        | none ↦ none
        | some tail_index ↦
            if is_terminal_step (get_elem? steps tail_index)
            then elim rest [ none ↦ none | some survivors ↦ some (id ∷ survivors) ]
            else none
      ]

module _ {F : Type 0} ⦃fr : Fraction F⦄ where
  unfoldable pub is_join_satisfied : List (Step F) → ℕ → JoinMetadata F → Bool
  unfolding survivors_from join_policy_satisfied distinct_from
  is_join_satisfied steps join_index j = elim (fanout_of (get_elem? steps j.fanout_index)) [
    | none ↦ false
    | some m ↦
        if nat_eq m.join_index join_index
        then elim (survivors_from steps j 0 m.branch_ids) [
          | none ↦ false
          | some survivors ↦
              join_policy_satisfied j survivors
                (length (distinct_from [] (get_or j.errored_branch_ids [])))
        ]
        else false
  ]

  unfoldable pub kind_stuck : List (Step F) → ℕ → StepKind F → Option Stuck
  unfolding can_fanout_advance is_join_satisfied
  kind_stuck steps index (task t) = none
  kind_stuck steps index (gate g) = none
  kind_stuck steps index (fanout m) =
      if can_fanout_advance steps m then none else some fanout_cannot_advance
  kind_stuck steps index (join none) = some join_cannot_advance
  kind_stuck steps index (join (some j)) =
      if is_join_satisfied steps index j then none else some join_cannot_advance

  unfoldable pub active_step_violation : List (Step F) → ℕ → Step F → Option Stuck
  unfolding kind_stuck
  active_step_violation steps index step =
      if step.completed then some is_completed else kind_stuck steps index step.kind

  unfoldable pub check_active_step : List (Step F) → ℕ → ℕ → List Violation
  unfolding active_step_violation
  check_active_step steps position index =
      if is_index_in_bounds steps index
      then elim (get_elem? steps index) [
        | none ↦ []
        | some step ↦ elim (active_step_violation steps index step) [
          | none ↦ []
          | some stuck ↦ active_stuck position index stuck ∷ []
        ]
      ]
      else active_out_of_bounds position index ∷ []

  -- `above` is `previousIndex + 1`.
  unfoldable pub check_active_from : List (Step F) → ℕ → ℕ → List ℕ → List ℕ → List Violation
  unfolding check_active_step includes
  check_active_from steps position above seen [] = []
  check_active_from steps position above seen (index ∷ indices) =
      let later = check_active_from steps (suc position) (suc index) seen indices in
      let next = check_active_from steps (suc position) (suc index) (index ∷ seen) indices in
      report (ltb index above) (active_not_sorted position index)
      ++ (if includes seen index
          then active_duplicate position index ∷ later
          else check_active_step steps position index ++ next)

  unfoldable pub check_active_step_indices : List (Step F) → Option (List ℕ) → List Violation
  unfolding check_active_from
  check_active_step_indices steps none = []
  check_active_step_indices steps (some indices) = check_active_from steps 0 0 [] indices

-- The ranges before this one that it overlaps.
unfoldable pub check_overlaps : ℕ → ℕ → ℕ → BranchRange → List BranchRange → List Violation
check_overlaps index range_index previous_index range [] = []
check_overlaps index range_index previous_index range (previous ∷ ranges) =
    let later = check_overlaps index range_index (suc previous_index) range ranges in
    report (ranges_overlap previous range) (range_overlaps index range_index previous_index)
    ++ later

branch_differs : ℕ → Option String → BranchMetadata → Bool
branch_differs index expected branch =
    not (nat_eq branch.fanout_index index)
    || not (elim expected [ none ↦ false | some id ↦ str_eq branch.branch_id id ])

module _ {F : Type 0} where
  -- The `n` steps from `at` on that lie in a range.
  unfoldable pub check_range_steps : List (Step F) → ℕ → ℕ → Option String → ℕ → ℕ → List Violation
  unfolding branch_differs
  check_range_steps steps index range_index expected zero at = []
  check_range_steps steps index range_index expected (suc n) at =
      let later = check_range_steps steps index range_index expected n (suc at) in
      elim (get_elem? steps at) [
        | none ↦ later
        | some step ↦ elim step.branch [
          | none ↦ no_branch_metadata at range_index ∷ later
          | some branch ↦
              report (branch_differs index expected branch) (branch_mismatch at range_index)
              ++ later
        ]
      ]

  unfoldable pub check_range :
      List (Step F) → ℕ → FanoutMetadata F → ℕ → List BranchRange → BranchRange → List Violation
  unfolding check_overlaps check_range_steps
  check_range steps index m range_index before range =
      report (ltb range.end_index range.start_index) (range_empty index range_index)
      ++ report
          (not (
            is_index_in_bounds steps range.start_index && is_index_in_bounds steps range.end_index))
          (range_out_of_bounds index range_index)
      ++ report (leb range.start_index index) (range_before_fanout index range_index)
      ++ report (leb m.join_index range.end_index) (range_after_join index range_index)
      ++ check_overlaps index range_index 0 range before
      ++ check_range_steps steps index range_index (get_elem? m.branch_ids range_index)
          (suc range.end_index - range.start_index) range.start_index

  -- `before` holds the ranges that were already checked.
  unfoldable pub check_ranges :
      List (Step F)
      → ℕ
      → FanoutMetadata F
      → ℕ
      → List BranchRange
      → List BranchRange
      → List Violation
  unfolding check_range
  check_ranges steps index m range_index before [] = []
  check_ranges steps index m range_index before (range ∷ ranges) =
      check_range steps index m range_index before range
      ++ check_ranges steps index m (suc range_index) (before ++ range ∷ []) ranges

  unfoldable pub check_fanout_step : List (Step F) → ℕ → Option (FanoutMetadata F) → List Violation
  unfolding check_ranges
  check_fanout_step steps index none = fanout_metadata_missing index ∷ []
  check_fanout_step steps index (some m) =
      report (not (is_some (join_of (get_elem? steps m.join_index))))
        (fanout_join_not_join index m.join_index)
      ++ report (not (nat_eq (length m.branch_ids) (length m.branch_ranges))) (count_mismatch index)
      ++ check_ranges steps index m 0 [] m.branch_ranges
