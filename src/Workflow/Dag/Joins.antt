-- ===== src/Workflow/Dag/Joins.antt =====
-- Join satisfaction of dag.ts. For `any_success` the test skips the losing branches, so it returns
-- the new array of steps.
pub mod Skip
pub mod Settled
pub mod Opens
pub mod Resolved
use octeam.Prelude.{
  ℕ, zero, suc, ◌+◌, ◌-◌, String, Bool, true, false, ◌&&◌, ◌||◌, Option, none, some, List, [], ◌∷◌,
  ◌++◌, str_eq, nat_eq, get_or, get_elem?, modify, eq_string, if◌then◌else◌,
}
use octeam.Prelude.Member.{includes, index_of}
use octeam.Workflow.Types.{
  BranchRange, BranchMetadata, FanoutMetadata, JoinPolicy, any_success, JoinMetadata, StepKind,
  fanout, join, Step,
}
use octeam.Workflow.JoinPolicy.{is_true, join_policy_satisfied}
use octeam.Workflow.JoinPolicy.Ieee.{Fraction}

abbrev pub is_any_success : Option JoinPolicy → Bool
is_any_success (some any_success) = true
is_any_success _ = false

abbrev pub singleton : Option String → List String
singleton none = []
singleton (some name) = name ∷ []

abbrev pub same_branch : BranchMetadata → BranchMetadata → Bool
same_branch a b = nat_eq a.fanout_index b.fanout_index && str_eq a.branch_id b.branch_id

module _ {F : Type 0} where
  unfoldable pub is_same_workflow_branch : Step F → BranchMetadata → Bool
  is_same_workflow_branch step branch = elim step.branch [
    | none ↦ false
    | some own ↦ same_branch own branch
  ]

  unfoldable pub is_terminal_workflow_step : Step F → Bool
  is_terminal_workflow_step step = step.completed || is_true step.skipped

  abbrev pub branch_id? : Step F → Option String
  branch_id? step = elim step.branch [ none ↦ none | some b ↦ some b.branch_id ]

  -- `branchId !== undefined && erroredBranchIds.has(branchId)`
  unfoldable pub is_errored : List String → Step F → Bool
  unfolding includes
  is_errored errored step = elim (branch_id? step) [ none ↦ false | some id ↦ includes errored id ]

  -- `step.completed = true; step.skipped = true`
  unfoldable pub mark_skipped : Step F → Step F
  mark_skipped step = record step {
    runtime = record step.runtime { completed = true; skipped = some true };
  }

  -- The first scan of `any_success`; `none` is its early `return false`.
  unfoldable pub success_found : List (Step F) → List String → List ℕ → Option Bool
  unfolding is_errored is_terminal_workflow_step
  success_found steps errored [] = some false
  success_found steps errored (t ∷ ts) =
      let rest = success_found steps errored ts in
      elim (get_elem? steps t) [
        | none ↦ none
        | some tail ↦
            if is_errored errored tail
            then rest
            else if is_terminal_workflow_step tail
            then some true
            else rest
      ]

  -- `n` steps from `r` on
  unfoldable pub mark_range : ℕ → ℕ → List (Step F) → List (Step F)
  unfolding mark_skipped
  mark_range zero r steps = steps
  mark_range (suc n) r steps = mark_range n (suc r) (modify steps r mark_skipped)

  abbrev pub fanout_of : Option (Step F) → Option (FanoutMetadata F)
  fanout_of none = none
  fanout_of (some step) = elim step.kind [ fanout m ↦ m | _ ↦ none ]

  -- `branchRanges[branchIdsOnFanout.indexOf(branchId)]`, where all of it is there
  unfoldable pub losing_range : Option (FanoutMetadata F) → Option String → Option BranchRange
  unfolding index_of
  losing_range (some m) (some id) = elim (index_of m.branch_ids id) [
    | none ↦ none
    | some i ↦ get_elem? m.branch_ranges i
  ]
  losing_range _ _ = none

  -- The whole branch of a losing tail, or the tail alone where its range is not known.
  unfoldable pub skip_loser : Option (FanoutMetadata F) → ℕ → Step F → List (Step F) → List (Step F)
  unfolding losing_range mark_range mark_skipped
  skip_loser m t tail steps = elim (losing_range m (branch_id? tail)) [
    | none ↦ modify steps t mark_skipped
    | some r ↦ mark_range (suc r.end_index - r.start_index) r.start_index steps
  ]

  unfoldable pub skip_tail :
      Option (FanoutMetadata F) → List String → ℕ → List (Step F) → List (Step F)
  unfolding is_errored is_terminal_workflow_step skip_loser
  skip_tail m errored t steps = elim (get_elem? steps t) [
    | none ↦ steps
    | some tail ↦
        if is_errored errored tail || is_terminal_workflow_step tail
        then steps
        else skip_loser m t tail steps
  ]

  unfoldable pub skip_losers :
      Option (FanoutMetadata F) → List String → List ℕ → List (Step F) → List (Step F)
  unfolding skip_tail
  skip_losers m errored [] steps = steps
  skip_losers m errored (t ∷ ts) steps = skip_losers m errored ts (skip_tail m errored t steps)

  -- The scan that every policy makes: the surviving branches and the number of errored tails, or
  -- `none` where a tail is missing or not terminal.
  unfoldable pub resolved_branches :
      List (Step F) → List String → List ℕ → List String → ℕ → Option (List String × ℕ)
  unfolding is_errored is_terminal_workflow_step
  resolved_branches steps errored [] survivors errors = some (survivors, errors)
  resolved_branches steps errored (t ∷ ts) survivors errors = elim (get_elem? steps t) [
    | none ↦ none
    | some tail ↦ elim (is_errored errored tail) [
      | true ↦ resolved_branches steps errored ts survivors (errors + 1)
      | false ↦ elim (is_terminal_workflow_step tail) [
        | true ↦
            resolved_branches steps errored ts (survivors ++ singleton (branch_id? tail)) errors
        | false ↦ none
      ]
    ]
  ]

module _ {F : Type 0} ⦃fr : Fraction F⦄ where
  unfoldable pub all_resolved : List (Step F) → JoinMetadata F → Bool
  unfolding resolved_branches
  all_resolved steps j =
      elim (resolved_branches steps (get_or j.errored_branch_ids []) j.branch_tail_indices [] 0) [
        | none ↦ false
        | some (survivors, errors) ↦ join_policy_satisfied j survivors errors
      ]

  -- The steps after the call, and what it returns.
  unfoldable pub is_join_metadata_satisfied : List (Step F) → JoinMetadata F → List (Step F) × Bool
  unfolding success_found skip_losers all_resolved
  is_join_metadata_satisfied steps j =
      let errored = get_or j.errored_branch_ids [] in
      if is_any_success j.join_policy
      then elim (success_found steps errored j.branch_tail_indices) [
        | none ↦ (steps, false)
        | some true ↦ (
          skip_losers (fanout_of (get_elem? steps j.fanout_index)) errored j.branch_tail_indices
              steps,
          true,
        )
        | some false ↦ (steps, all_resolved steps j)
      ]
      else (steps, all_resolved steps j)

  unfoldable pub join_kind_satisfied : List (Step F) → StepKind F → List (Step F) × Bool
  unfolding is_join_metadata_satisfied
  join_kind_satisfied steps (join (some j)) = is_join_metadata_satisfied steps j
  join_kind_satisfied steps _ = (steps, false)

  unfoldable pub is_workflow_join_satisfied : List (Step F) → Step F → List (Step F) × Bool
  unfolding join_kind_satisfied
  is_workflow_join_satisfied steps step = join_kind_satisfied steps step.kind
