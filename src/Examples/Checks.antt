-- ===== src/Examples/Checks.antt =====
-- The sample workflow passes the checks of a restored task.
use octeam.Prelude.{ℕ, ◌<◌, ◌≡◌, ◌↔◌, refl, true, false, some, [], ◌∷◌, get_elem?, length, is_some}
use octeam.Workflow.Types.{BranchRange}
use octeam.Workflow.Ranges.{ranges_overlap}
use octeam.Workflow.JoinPolicy.Ieee.{ratio_fraction}
use octeam.Workflow.Fanout.{join_of}
use octeam.Workflow.Invariants.{
  active_not_sorted, active_stuck, join_cannot_advance, check_active_step_indices,
  check_fanout_step,
}
use octeam.Workflow.Invariants.Active.{IsActiveFrom, check_active-IsActiveFrom}
use octeam.Workflow.Invariants.Branches.{IsLaidOut}
use octeam.Workflow.Invariants.Fanouts.{check_fanout-IsLaidOut}
use octeam.Examples.Steps.{marker, steps_of}

unsorted_join :
    check_active_step_indices (steps_of false) (some (4 ∷ 1 ∷ []))
    ≡ active_stuck 0 4 join_cannot_advance ∷ active_not_sorted 1 1 ∷ []
unfolding check_active_step_indices
unsorted_join = refl

check_active-IsActiveFrom_example :
    (check_active_step_indices (steps_of false) (some (1 ∷ 2 ∷ [])) ≡ [])
    ↔ IsActiveFrom (steps_of false) 0 (1 ∷ 2 ∷ [])
check_active-IsActiveFrom_example = check_active-IsActiveFrom (steps_of false) (1 ∷ 2 ∷ [])

passes : check_fanout_step (steps_of false) 0 (some marker) ≡ []
unfolding check_fanout_step
passes = refl

check_fanout-IsLaidOut_example :
    (is_some (join_of (get_elem? (steps_of false) 4)) ≡ true)
    × (length marker.branch_ids ≡ length marker.branch_ranges)
    × ((r : ℕ) (range : BranchRange)
        → get_elem? marker.branch_ranges r ≡ some range
        → IsLaidOut (steps_of false) 0 marker r range
          × ((q : ℕ) (left : BranchRange)
              → q < r
              → get_elem? marker.branch_ranges q ≡ some left
              → ranges_overlap left range ≡ false))
check_fanout-IsLaidOut_example = check_fanout-IsLaidOut (steps_of false) 0 marker passes
