-- ===== src/Workflow/Advance/Loop.antt =====
-- src/orchestration/workflow/engine.ts: `advanceWorkflowStep`, and what follows from a verdict or a jump.
-- A call that the loop makes while it runs, the verdict of an ensemble whose answers are all there, is
-- followed within it: the loop takes the call as the parameter `follow`, and `follow_next` gives itself
-- to the loop, with less fuel. A loop without end runs out of fuel: `none`.
pub mod Ends
pub mod Quiet
pub mod Done
use octeam.Prelude.{
  ℕ, zero, suc, Bool, true, false, not, Option, none, some, List, [], ◌∷◌, get_elem?, is_some,
  eq_nat, if◌then◌else◌,
}
use octeam.Workflow.Types.{JoinMetadata, StepKind, task, fanout, join, Step}
use octeam.Workflow.JoinPolicy.Ieee.{Fraction}
use octeam.Workflow.Dag.Actors.{sorted_workflow_indices, get_active_workflow_step_indices}
use octeam.Workflow.Dag.Ready.{ready_workflow_step_indices}
use octeam.Workflow.Engine.State.{
  WorkflowRun, Next, halt, advance, enter, retry, workflow_complete, frontier_deadlock,
  steps_of_run, with_steps, finish, name_list, reset_workflow_step_timing,
}
use octeam.Workflow.Verdicts.Settle.{update_step, has_incomplete}
use octeam.Workflow.Dispatch.Send.{Dispatched, not_dispatched, sends}
use octeam.Workflow.Advance.Joins.{completed, dispatch_workflow_join_reducer}
use octeam.Workflow.Advance.Sweep.{
  Host, after_dispatch, complete_expanded_fanout_markers, dispatch_by_kind,
  has_waiting_active_workflow_actor, nothing, sent, stopped, sweep, sweep_actor,
}

module _ {F : Type 0} where
  -- The ready steps, as the active ones of the run.
  abbrev pub activate : WorkflowRun F → ℕ → List ℕ → WorkflowRun F
  unfolding complete_expanded_fanout_markers
  activate run first later = record run {
    view = record run.view {
      steps = some (complete_expanded_fanout_markers (steps_of_run run) (first ∷ later));
      active_step_indices = some (first ∷ later);
      current_stage_index = first;
    };
  }

  -- The index of the first step that is not completed.
  unfoldable pub first_incomplete : List (Step F) → ℕ → Option ℕ
  first_incomplete [] i = none
  first_incomplete (step ∷ steps) i =
      let later = first_incomplete steps (suc i) in if step.completed then later else some i

module _ {F : Type 0} ⦃fr : Fraction F⦄ (host : Host) where
  unfoldable pub complete_run : WorkflowRun F → WorkflowRun F
  complete_run run = if host.signs_off then run else finish workflow_complete run

  module _ (follow : Next → WorkflowRun F → Option (WorkflowRun F)) where
    -- The loop over the frontier.
    unfoldable pub advance_frontier : ℕ → List ℕ → WorkflowRun F → Option (WorkflowRun F)
    unfolding ready_workflow_step_indices sorted_workflow_indices has_incomplete complete_run
        activate sweep has_waiting_active_workflow_actor get_active_workflow_step_indices
    advance_frontier zero previous run = none
    advance_frontier (suc fuel) previous run = elim (ready_workflow_step_indices run.view) [
      | none ↦ none
      | some (steps, found) ↦
          let here = with_steps run steps in
          elim (sorted_workflow_indices found) [
            | [] ↦
                some (
                  if has_incomplete steps then finish frontier_deadlock here else complete_run here)
            | first ∷ later ↦
                elim (sweep host follow previous (first ∷ later) false
                  (activate here first later)) [
                    | none ↦ none
                    | some (after, stopped) ↦ some after
                    | some (after, sent) ↦ some after
                    | some (after, nothing) ↦
                        let rest =
                          advance_frontier fuel (get_active_workflow_step_indices after.view)
                            after in
                        if has_waiting_active_workflow_actor (steps_of_run after) previous
                          (first ∷ later) after.responses
                        then some after
                        else rest
                  ]
          ]
    ]

    -- Without a frontier: the first incomplete step.
    unfoldable pub advance_linear : WorkflowRun F → Option (WorkflowRun F)
    unfolding first_incomplete complete_run sweep_actor
    advance_linear run = elim (first_incomplete (steps_of_run run) 0) [
      | none ↦ some (complete_run run)
      | some index ↦ elim (get_elem? (steps_of_run run) index) [
        | none ↦ some run
        | some step ↦
            elim (sweep_actor host follow
              (record run { view = record run.view { current_stage_index = index } }) index step) [
                | none ↦ none
                | some (after, swept) ↦ some after
              ]
      ]
    ]

    unfoldable pub advance_workflow_step : ℕ → WorkflowRun F → Option (WorkflowRun F)
    unfolding advance_frontier advance_linear get_active_workflow_step_indices
    advance_workflow_step fuel run =
        if is_some run.view.active_step_indices
        then advance_frontier fuel (get_active_workflow_step_indices run.view) run
        else advance_linear run

  abbrev pub is_task_kind : StepKind F → Bool
  is_task_kind (task t) = true
  is_task_kind _ = false

  -- The dispatch of a jump's target, or of a step that runs again. Where it gives a branch up, the run
  -- goes on, but not from a verifier that is asked again.
  unfoldable pub follow_next : ℕ → Next → WorkflowRun F → Option (WorkflowRun F)
  unfolding advance_workflow_step sweep_actor dispatch_by_kind after_dispatch
  follow_next zero next run = none
  follow_next (suc fuel) halt run = some run
  follow_next (suc fuel) advance run = advance_workflow_step (follow_next fuel) fuel run
  follow_next (suc fuel) (enter target) run = elim (get_elem? (steps_of_run run) target) [
    | none ↦ some run
    | some step ↦ elim (sweep_actor host (follow_next fuel) run target step) [
      | none ↦ none
      | some (after, nothing) ↦ advance_workflow_step (follow_next fuel) fuel after
      | some (after, stopped) ↦ some after
      | some (after, sent) ↦ some after
    ]
  ]
  follow_next (suc fuel) (retry index) run = elim (get_elem? (steps_of_run run) index) [
    | none ↦ some run
    | some step ↦
        elim (after_dispatch host (follow_next fuel) step
          (dispatch_by_kind host step.kind run index)) [
            | none ↦ none
            | some (after, nothing) ↦
                let rest = advance_workflow_step (follow_next fuel) fuel after in
                if is_task_kind step.kind then rest else some after
            | some (after, stopped) ↦ some after
            | some (after, sent) ↦ some after
          ]
  ]

  abbrev pub reset_timing_at : Step F → Step F
  unfolding reset_workflow_step_timing
  reset_timing_at step = record step { runtime = reset_workflow_step_timing step.runtime }

  abbrev pub ask_reducer_again :
      Option (JoinMetadata F) → WorkflowRun F → ℕ → WorkflowRun F × Dispatched
  unfolding dispatch_workflow_join_reducer
  ask_reducer_again none run index = (run, not_dispatched)
  ask_reducer_again (some j) run index =
      let (after, asked) =
        dispatch_workflow_join_reducer host.members host.now host.uuid run index in
      (after, if asked then sends (name_list j.reducer_member) else not_dispatched)

  abbrev pub redispatch_kind : StepKind F → WorkflowRun F → ℕ → WorkflowRun F × Dispatched
  unfolding dispatch_by_kind ask_reducer_again
  redispatch_kind (fanout m) run index = (run, not_dispatched)
  redispatch_kind (join m) run index = ask_reducer_again m run index
  redispatch_kind kind run index = dispatch_by_kind host kind run index

  -- After a crash or a timeout; `not_dispatched` is `false`.
  unfoldable pub redispatch_workflow_step : WorkflowRun F → ℕ → WorkflowRun F × Dispatched
  unfolding redispatch_kind
  redispatch_workflow_step run index = elim (get_elem? (steps_of_run run) index) [
    | none ↦ (run, not_dispatched)
    | some step ↦
        if step.completed
        then (run, not_dispatched)
        else redispatch_kind step.kind (update_step index reset_timing_at run) index
  ]
