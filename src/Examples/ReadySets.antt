-- ===== src/Examples/ReadySets.antt =====
-- The ready set of the sample workflow.
use octeam.Prelude.{ℕ, ◌≡◌, refl, true, false, some, List, [], ◌∷◌, eq_nat}
use octeam.Prelude.Member.{includes, IsUnique}
use octeam.Workflow.Types.{Step, any_success}
use octeam.Workflow.Dag.Joins.{is_join_metadata_satisfied}
use octeam.Workflow.JoinPolicy.Ieee.{Ratio, ratio_fraction}
use octeam.Workflow.Dag.Joins.Skip.{Skips}
use octeam.Workflow.Dag.Ready.{ready_workflow_step_indices}
use octeam.Workflow.Dag.Ready.Total.{ready_workflow_step_indices_total}
use octeam.Workflow.Dag.Ready.Sound.{IsReady, ready_workflow_step_indices_sound}
use octeam.Examples.Steps.{join_by, steps_of, view_of}

ready_workflow_step_indices_total_example :
    (r : List (Step Ratio) × List ℕ) × (ready_workflow_step_indices (view_of false (0 ∷ []))
      ≡ some r)
ready_workflow_step_indices_total_example =
    ready_workflow_step_indices_total (view_of false (0 ∷ []))

fanout_heads :
    ready_workflow_step_indices (view_of false (0 ∷ [])) ≡ some (steps_of false, 1 ∷ 2 ∷ [])
unfolding ready_workflow_step_indices
fanout_heads = refl

ready_workflow_step_indices_sound_example :
    Skips (steps_of false) (steps_of false)
    × IsUnique {A = ℕ} (1 ∷ 2 ∷ [])
    × ((i : ℕ) → includes (1 ∷ 2 ∷ []) i ≡ true → IsReady (steps_of false) i)
ready_workflow_step_indices_sound_example =
    ready_workflow_step_indices_sound (view_of false (0 ∷ [])) (steps_of false) (1 ∷ 2 ∷ [])
      fanout_heads

-- The left branch is done while step 2 of the right branch is active: the call puts step 2 into the
-- ready set, then opens the join and skips it.
abbrev after_skip : List (Step Ratio)
after_skip = (is_join_metadata_satisfied (steps_of true) (join_by any_success)).0

skipped_but_ready :
    ready_workflow_step_indices (view_of true (2 ∷ 1 ∷ [])) ≡ some (after_skip, 2 ∷ 4 ∷ [])
unfolding ready_workflow_step_indices is_join_metadata_satisfied
skipped_but_ready = refl
