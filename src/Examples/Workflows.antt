-- ===== src/Examples/Workflows.antt =====
-- The check of a whole workflow at a concrete one.
use octeam.Prelude.{ℕ, ◌≡◌, ◌≢◌, inl, refl, true, some, [], ◌∷◌, eq_string}
use octeam.Workflow.Types.{TaskView}
use octeam.Workflow.JoinPolicy.Ieee.{Ratio, ratio_fraction}
use octeam.Workflow.Gates.Conditions.{can_gate_goto_step}
use octeam.Workflow.Invariants.StepChecks.{check_workflow_invariants}
use octeam.Workflow.Invariants.Gotos.{checked_gotos}
use octeam.Examples.Steps.{view_of}
use octeam.Examples.Gates.{scored_gate, scored_step, scored_steps}

abbrev scored_view : TaskView Ratio
scored_view = record {
  active_step_indices = some (2 ∷ []);
  current_stage_index = 2;
  steps = some scored_steps;
}

-- Also a workflow with a fanout and its join is found to be in order.
fanout_is_clean : check_workflow_invariants (view_of true (2 ∷ [])) ≡ []
unfolding check_workflow_invariants
fanout_is_clean = refl

checked_gotos_example : (can_gate_goto_step scored_steps 2 3 ≡ true) × ◌≢◌ {A = ℕ} 3 2
unfolding check_workflow_invariants
checked_gotos_example = checked_gotos scored_view 2 3 scored_step scored_gate refl refl (inl refl)
