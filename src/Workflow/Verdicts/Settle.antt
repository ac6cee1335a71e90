-- ===== src/Workflow/Verdicts/Settle.antt =====
-- src/orchestration/workflow/verdict.ts: how a step is settled, and the approvals that a run waits
-- for before it goes on (engine.ts and src/orchestration/control/approval.ts). A run with a task can
-- always be paused; failures of saving are left out.
use octeam.Prelude.{
  ℕ, Bool, true, false, not, ◌&&◌, Option, none, some, List, [], ◌∷◌, get_elem?, modify, is_some,
  if◌then◌else◌,
}
use octeam.Workflow.Types.{Step}
use octeam.Workflow.JoinPolicy.{is_true}
use octeam.Workflow.Engine.State.{
  WorkflowRun, Next, halt, advance, steps_of_run, with_steps, mark_workflow_step_completed,
}

abbrev pub raise : Bool → Bool → Bool
raise true old = true
raise false old = old

module _ {F : Type 0} where
  unfoldable pub reset_step_after_completion : ℕ → Bool → Bool → Step F → Step F
  unfolding mark_workflow_step_completed
  reset_step_after_completion now completed skipped step =
      let done = mark_workflow_step_completed now step in
      record done {
        runtime = record done.runtime {
          completed = raise completed done.runtime.completed;
          skipped = if skipped then some true else done.runtime.skipped;
          dispatched_at = none;
          dispatched_actor = none;
          correlation_id = none;
        };
      }

  abbrev pub update_step : ℕ → (Step F → Step F) → WorkflowRun F → WorkflowRun F
  update_step index f run = with_steps run (modify (steps_of_run run) index f)

  -- A pending request stays as it is; the run is paused in any case.
  unfoldable pub force_approval_request : ℕ → WorkflowRun F → WorkflowRun F
  force_approval_request stage run =
      if is_some run.approval_request then run else record run { approval_request = some stage }

  -- The run after the request, and whether it is paused.
  unfoldable pub maybe_request_approval : ℕ → WorkflowRun F → WorkflowRun F × Bool
  unfolding force_approval_request
  maybe_request_approval stage run =
      if is_true run.human_approval then (force_approval_request stage run, true) else (run, false)

  abbrev pub grant_before : Step F → Step F
  grant_before step = record step {
    runtime = record step.runtime { approval_before_granted = some true };
  }

  abbrev pub needs_approval_before : Option (Step F) → Bool
  needs_approval_before none = false
  needs_approval_before (some step) =
      is_true step.approval_before && not (is_true step.approval_before_granted)

  unfoldable pub maybe_pause_before_workflow_step : ℕ → WorkflowRun F → WorkflowRun F × Bool
  unfolding force_approval_request
  maybe_pause_before_workflow_step index run =
      if needs_approval_before (get_elem? (steps_of_run run) index)
      then (force_approval_request index (update_step index grant_before run), true)
      else (run, false)

  abbrev pub needs_approval_after : Option (Step F) → Bool
  needs_approval_after none = false
  needs_approval_after (some step) = is_true step.approval_after

  unfoldable pub maybe_pause_after_workflow_step : ℕ → WorkflowRun F → WorkflowRun F × Bool
  unfolding force_approval_request
  maybe_pause_after_workflow_step index run =
      if needs_approval_after (get_elem? (steps_of_run run) index)
      then (force_approval_request index run, true)
      else (run, false)

  -- `steps.findIndex((s) => !s.completed) !== -1`
  unfoldable pub has_incomplete : List (Step F) → Bool
  has_incomplete [] = false
  has_incomplete (step ∷ steps) =
      let rest = has_incomplete steps in if step.completed then rest else true

  -- The review that `human_approval` asks for outside of branches, and then the next step.
  unfoldable pub advance_after_review : ℕ → Step F → WorkflowRun F → WorkflowRun F × Next
  unfolding has_incomplete maybe_request_approval
  advance_after_review index step run =
      if not (is_some step.branch) && has_incomplete (steps_of_run run)
      then (let (asked, paused) = maybe_request_approval index run in
          (asked, if paused then halt else advance))
      else (run, advance)

  -- The step at the index is settled: `approval_after`, the review, the next step.
  unfoldable pub continue_after : ℕ → Step F → WorkflowRun F → WorkflowRun F × Next
  unfolding maybe_pause_after_workflow_step advance_after_review
  continue_after index step run =
      let (after, paused) = maybe_pause_after_workflow_step index run in
      if paused then (after, halt) else advance_after_review index step after
