-- ===== src/Examples/Fanouts.antt =====
-- Branch errors of the sample workflow.
use octeam.Prelude.{
  ℕ, ◌≤◌, ◌<◌, ◌≡◌, refl, String, true, false, some, [], ◌∷◌, arith, modify, get_or, get_elem?,
  eq_string, eq_nat, not, ◌&&◌, ◌||◌, ◌⊎◌, str_eq, subst,
}
use octeam.Prelude.Member.{includes, includes_one, IsUnique}
use octeam.Workflow.Types.{BranchMetadata, JoinMetadata, Step, every, any_success, TaskView}
use octeam.Workflow.JoinPolicy.{join_policy_satisfied}
use octeam.Workflow.JoinPolicy.Ieee.{Ratio, ratio_fraction, ratio_laws}
use octeam.Workflow.Dag.Actors.{get_active_workflow_step_indices}
use octeam.Workflow.Dag.Joins.{is_same_workflow_branch}
use octeam.Workflow.Fanout.{
  over_tolerance, within_tolerance, join_of, set_join, outside_branch, branch_span,
  branch_ids_for_join, mark_workflow_fanout_branch_errored, evaluate_workflow_fanout_error,
}
use octeam.Workflow.Fanout.Errored.{evaluate_failed_sound, mark_errored_record, mark_errored_stops}
use octeam.Examples.Steps.{join_by, steps_of, view_of}

-- Both branches are active, and the left one fails.
abbrev both : TaskView Ratio
both = view_of false (1 ∷ 2 ∷ [])

abbrev left : BranchMetadata
left = record { fanout_index = 0; branch_id = "left"; branch_index = 0; join_index = 4 }

abbrev after : TaskView Ratio
after = (mark_workflow_fanout_branch_errored both "ann").0

left_fails : mark_workflow_fanout_branch_errored both "ann" ≡ (after, within_tolerance)
unfolding mark_workflow_fanout_branch_errored
left_fails = refl

right_goes_on : after.active_step_indices ≡ some (2 ∷ [])
unfolding mark_workflow_fanout_branch_errored
right_goes_on = refl

mark_errored_record_example :
    (new : JoinMetadata Ratio) × (join_of (get_elem? (get_or after.steps []) 4) ≡ some new)
    × ((id : String)
        → includes (get_or new.errored_branch_ids []) id ≡ (includes [] id || str_eq "left" id))
    × IsUnique (get_or new.errored_branch_ids [])
    × ((id : String)
        → includes (get_or new.survivor_branch_ids []) id ≡ (
            includes (branch_ids_for_join (steps_of false) (join_by any_success)) id
            && not (includes (get_or new.errored_branch_ids []) id)))
unfolding mark_workflow_fanout_branch_errored
mark_errored_record_example =
    mark_errored_record both "ann" 1 left (join_by any_success) refl refl refl

mark_errored_stops_example :
    ((k : ℕ)
      → includes (get_active_workflow_step_indices after) k ≡ true
      → (k ≡ 4) ⊎ (outside_branch (get_or after.steps []) left k ≡ true))
    × ((k : ℕ) (step : Step Ratio)
        → get_elem? (get_or after.steps []) k ≡ some step
        → is_same_workflow_branch step left ≡ true
        → (branch_span (steps_of false) left).0 ≤ k
        → k < (branch_span (steps_of false) left).1
        → step.completed ≡ true)
unfolding mark_workflow_fanout_branch_errored
mark_errored_stops_example =
    mark_errored_stops both "ann" 1 left (join_by any_success) refl refl refl

-- The join waits for every branch, and one has errored.
abbrev lost : JoinMetadata Ratio
lost = record (join_by every) { errored_branch_ids = some ("left" ∷ []) }

apart : (id : String) → includes ("left" ∷ []) id ≡ true → includes ("right" ∷ []) id ≡ false
unfolding includes
apart id h = subst (λ x. includes ("right" ∷ []) x ≡ false) (includes_one "left" id h) refl

evaluate_failed_sound_example : join_policy_satisfied lost ("right" ∷ []) 1 ≡ false
unfolding evaluate_workflow_fanout_error
evaluate_failed_sound_example =
    evaluate_failed_sound ratio_laws (modify (steps_of false) 4 (set_join lost)) 4 lost
      (over_tolerance 1) ("right" ∷ []) 1 refl refl refl (omega arith) (omega arith) apart
