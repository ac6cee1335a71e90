-- ===== src/Workflow/Idle/Tasks.antt =====
-- src/orchestration/workflow/handler.ts: the idle of a task's member, `handleTaskIdle`.
use octeam.Prelude.{
  ℕ, ◌+◌, String, Bool, true, false, not, ◌&&◌, none, some, List, [], ◌∷◌, get_or, or_else, ltb,
  is_some, eq_string, if◌then◌else◌,
}
use octeam.Prelude.Assoc.{lookup}
use octeam.Workflow.Types.{
  empty, output_contains, output_not_contains, regex, TaskFields, StepKind, task, gate, fanout,
  join, Step,
}
use octeam.Workflow.JoinPolicy.Ieee.{Fraction}
use octeam.Workflow.Dag.Ready.{ready_workflow_step_indices}
use octeam.Workflow.Engine.State.{
  WorkflowRun, Next, halt, advance, steps_of_run, with_steps, drop_response,
  reset_workflow_step_timing,
}
use octeam.Workflow.Verdicts.Settle.{
  update_step, reset_step_after_completion, has_incomplete, maybe_request_approval,
  maybe_pause_before_workflow_step, maybe_pause_after_workflow_step,
}
use octeam.Modes.Signoff.{Reviewer}
use octeam.Workflow.Dispatch.Send.{Dispatched, not_dispatched, sends, settled, dispatch_task_step}
use octeam.Workflow.Advance.Truncate.{Texts, truncate_output}
use octeam.Workflow.Advance.Joins.{handle_workflow_dispatch_unavailable}

-- What the runtime says of an output: `trim` leaves nothing of it, it contains a text, and a regular
-- expression that is taken for safe (`testRegexSafely`) matches it.
pub record OutputTests : Type 0 where
  pub is_blank : String → Bool
  pub contains : String → String → Bool
  pub matches : String → String → Bool

module _ (tests : OutputTests) where
  unfoldable pub should_retry_task : TaskFields → String → Bool
  should_retry_task t output = elim t.retry_on [
    | none ↦ false
    | some empty ↦ tests.is_blank output
    | some (output_contains pattern) ↦ tests.contains output pattern
    | some (output_not_contains pattern) ↦ not (tests.contains output pattern)
    | some (regex pattern) ↦ tests.matches pattern output
  ]

-- `++step.taskAttempts <= maxTaskRetries`
abbrev pub has_task_retry : TaskFields → Bool
has_task_retry t = not (ltb (get_or t.max_task_retries 0) (get_or t.task_attempts 0 + 1))

abbrev pub count_task_attempt : TaskFields → TaskFields
count_task_attempt t = record t { task_attempts = some (get_or t.task_attempts 0 + 1) }

abbrev pub has_ready : List ℕ → Bool
has_ready [] = false
has_ready (i ∷ is) = true

module _ {F : Type 0} where
  abbrev pub count_attempt_of : StepKind F → StepKind F
  count_attempt_of (task t) = task (count_task_attempt t)
  count_attempt_of (gate g) = gate g
  count_attempt_of (fanout m) = fanout m
  count_attempt_of (join m) = join m

  abbrev pub count_attempt_at : Step F → Step F
  count_attempt_at step = record step { kind = count_attempt_of step.kind }

  -- The step before it is prompted again.
  unfoldable pub clear_for_retry : Step F → Step F
  unfolding reset_workflow_step_timing
  clear_for_retry step = record step {
    runtime = record (reset_workflow_step_timing step.runtime) {
      output = none;
      correlation_id = none;
    };
  }

  -- `step.output ??= …`, cut to the step's own cap.
  abbrev pub capture_output : Texts → String → Step F → Step F
  capture_output texts raw step = record step {
    runtime = record step.runtime {
      output =
          or_else step.output (
            some
              (elim step.max_output_bytes [ none ↦ raw | some n ↦ truncate_output texts raw n ]));
    };
  }

module _ {F : Type 0} ⦃fr : Fraction F⦄ where
  -- Whether a step is still to be done: the next incomplete one, or the first of the ready set, whose
  -- test of a join may skip branches.
  unfoldable pub find_next : WorkflowRun F → WorkflowRun F × Bool
  unfolding has_incomplete ready_workflow_step_indices
  find_next run =
      if is_some run.view.active_step_indices
      then elim (ready_workflow_step_indices run.view) [
        | none ↦ (run, false)
        | some (steps, ready) ↦ (with_steps run steps, has_ready ready)
      ]
      else (run, has_incomplete (steps_of_run run))

  -- The review that `human_approval` asks for outside of branches, where a step is still to be done.
  abbrev pub review_task : ℕ → Bool → WorkflowRun F × Bool → WorkflowRun F × Next
  unfolding maybe_request_approval
  review_task index in_branch (run, has_next) =
      let (asked, waits) = maybe_request_approval index run in
      if not in_branch && has_next then (asked, if waits then halt else advance) else (run, advance)

  abbrev pub leave_unless_paused : ℕ → Bool → WorkflowRun F × Bool → WorkflowRun F × Next
  unfolding find_next
  leave_unless_paused index in_branch (run, true) = (run, halt)
  leave_unless_paused index in_branch (run, false) = review_task index in_branch (find_next run)

  -- The rest of a task's idle, when its step is completed.
  unfoldable pub leave_task : WorkflowRun F → ℕ → Step F → WorkflowRun F × Next
  unfolding maybe_pause_after_workflow_step leave_unless_paused
  leave_task run index step =
      leave_unless_paused index (is_some step.branch) (maybe_pause_after_workflow_step index run)

  unfoldable pub complete_task :
      Texts → ℕ → WorkflowRun F → ℕ → Step F → String → WorkflowRun F × Next
  unfolding reset_step_after_completion leave_task
  complete_task texts now run index step raw =
      leave_task
        (update_step index
          (λ s. reset_step_after_completion now true false (capture_output texts raw s)) run)
        index step

  -- The first reason of a run stays.
  abbrev pub unless_finished : WorkflowRun F → WorkflowRun F → WorkflowRun F
  unless_finished run next = if is_some run.finished then run else next

  unfoldable pub or_unavailable : WorkflowRun F × Dispatched → Step F → WorkflowRun F
  unfolding handle_workflow_dispatch_unavailable
  or_unavailable (run, not_dispatched) step =
      unless_finished run (handle_workflow_dispatch_unavailable run step).0
  or_unavailable (run, sends names) step = run
  or_unavailable (run, settled next) step = run

  -- The step is asked again, after the approval that it may wait for.
  unfoldable pub retry_task :
      List Reviewer → ℕ → String → WorkflowRun F → ℕ → Step F → String → WorkflowRun F × Next
  unfolding maybe_pause_before_workflow_step dispatch_task_step or_unavailable
  retry_task members now uuid run index step name =
      let cleared = drop_response (update_step index clear_for_retry run) name in
      let (after, paused) = maybe_pause_before_workflow_step index cleared in
      if paused
      then (after, halt)
      else (or_unavailable (dispatch_task_step members now uuid after index) step, halt)

  module _ (texts : Texts) (tests : OutputTests) where
    unfoldable pub handle_task_idle :
        List Reviewer
        → ℕ
        → String
        → WorkflowRun F
        → ℕ
        → Step F
        → TaskFields
        → String
        → WorkflowRun F × Next
    unfolding lookup should_retry_task retry_task complete_task
    handle_task_idle members now uuid run index step t name =
        let raw = get_or (or_else step.output (lookup name run.responses)) "" in
        if should_retry_task tests t raw
        then (let counted = update_step index count_attempt_at run in
            if has_task_retry t
            then retry_task members now uuid counted index step name
            else complete_task texts now counted index step raw)
        else complete_task texts now run index step raw
