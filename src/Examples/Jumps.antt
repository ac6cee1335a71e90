-- ===== src/Examples/Jumps.antt =====
-- A jump of a gate back to the first step of a workflow.
use octeam.Prelude.{ℕ, ◌≡◌, ◌≤◌, ◌<◌, ◌⊎◌, refl, true, none, some, [], ◌∷◌, get_elem?, eq_nat}
use octeam.Prelude.Member.{includes}
use octeam.Workflow.Types.{Step}
use octeam.Workflow.JoinPolicy.Ieee.{Ratio}
use octeam.Workflow.Dag.Actors.{get_active_workflow_step_indices}
use octeam.Workflow.Engine.State.{WorkflowRun, enter, steps_of_run}
use octeam.Workflow.Engine.Goto.{goto_workflow_step}
use octeam.Workflow.Engine.Jumps.{IsReset, goto_effect}
use octeam.Examples.Gates.{scored_steps}

-- The gate (step 2) is active, and its verifier has answered.
abbrev pub scored_run : WorkflowRun Ratio
scored_run = record {
  view = record {
    active_step_indices = some (2 ∷ []);
    current_stage_index = 2;
    steps = some scored_steps;
  };
  responses = ("dan", "PASS") ∷ [];
  human_approval = none;
  approval_request = none;
  finished = none;
}

abbrev jumped : WorkflowRun Ratio
jumped = (goto_workflow_step 9 scored_run 2 0 true).0

goto_enters : (goto_workflow_step 9 scored_run 2 0 true).1 ≡ enter 0
unfolding goto_workflow_step
goto_enters = refl

goto_effect_example :
    (includes (get_active_workflow_step_indices jumped.view) 0 ≡ true)
    × ((k : ℕ) (step : Step Ratio)
        → 0 < 2
        → 0 ≤ k
        → k ≤ 2
        → get_elem? (steps_of_run jumped) k ≡ some step
        → IsReset step)
    × ((k : ℕ) (step : Step Ratio)
        → 2 < 0
        → 2 ≤ k
        → k < 0
        → get_elem? (steps_of_run jumped) k ≡ some step
        → step.completed ≡ true)
    × ((k : ℕ)
        → ((k < 2) × (k < 0)) ⊎ ((2 < k) × (0 ≤ k))
        → get_elem? (steps_of_run jumped) k ≡ get_elem? (steps_of_run scored_run) k)
unfolding goto_workflow_step
goto_effect_example = goto_effect 9 scored_run jumped 2 0 0 true refl
