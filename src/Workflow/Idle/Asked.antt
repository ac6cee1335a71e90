-- ===== src/Workflow/Idle/Asked.antt =====
-- What the idle of a task does in handler.ts: the task is asked again, or it is completed.
use octeam.Prelude.{
  ℕ, ◌+◌, ◌≤◌, ◌≡◌, ◌⊎◌, inl, inr, refl, ap, ◌∙◌, String, Bool, true, false, not, ◌&&◌, Option,
  none, some, List, arith, get_or, or_else, get_elem?, get_elem?-modify_self, is_some, ltb,
  Bool-cases, Option-cases,
}
use octeam.Prelude.Assoc.{lookup}
use octeam.Workflow.Types.{TaskFields, task, Step}
use octeam.Workflow.JoinPolicy.{is_true}
use octeam.Workflow.JoinPolicy.Ieee.{Fraction}
use octeam.Workflow.Dag.Joins.{mark_skipped}
use octeam.Workflow.Dag.Joins.Skip.{get_elem?-Skips}
use octeam.Workflow.Dag.Ready.{ready_workflow_step_indices}
use octeam.Workflow.Dag.Ready.Sound.{ready_workflow_step_indices_sound}
use octeam.Workflow.Engine.State.{
  WorkflowRun, Next, advance, halt, steps_of_run, drop_response, mark_workflow_step_completed,
}
use octeam.Workflow.Verdicts.Settle.{
  needs_approval_before, grant_before, reset_step_after_completion, update_step,
  maybe_request_approval, force_approval_request, maybe_pause_before_workflow_step,
  maybe_pause_after_workflow_step, needs_approval_after,
}
use octeam.Modes.Signoff.{Reviewer}
use octeam.Workflow.Advance.Truncate.{Texts, truncate_output}
use octeam.Workflow.Dispatch.Send.{Dispatched, not_dispatched, sends, settled, dispatch_task_step}
use octeam.Workflow.Idle.Kept.{
  fields_at, fields_at-modify, kind_fields, task_fields, dispatch_task_step-fields,
  unavailable-fields,
}
use octeam.Workflow.Idle.Tasks.{
  or_unavailable, clear_for_retry, count_task_attempt, OutputTests, should_retry_task,
  has_task_retry, capture_output, count_attempt_at, count_attempt_of, find_next, review_task,
  leave_task, complete_task, retry_task, handle_task_idle,
}

abbrev as_done : Option (Bool × Option ℕ × Option String) → Option (Bool × Option ℕ × Option String)
as_done none = none
as_done (some (completed, dispatched_at, output)) = some (true, dispatched_at, output)

-- `retry_on` matches, and one attempt more is within `maxTaskRetries`.
unfoldable pub asks_again : OutputTests → TaskFields → String → Bool
unfolding should_retry_task
asks_again tests t raw =
    should_retry_task tests t raw
    && not (ltb (get_or t.max_task_retries 0) (get_or t.task_attempts 0 + 1))

module _ {F : Type 0} where
  -- Whether the step is completed, the time of the dispatch that it waits for, and its output.
  abbrev pub left_as : Option (Step F) → Option (Bool × Option ℕ × Option String)
  left_as none = none
  left_as (some step) = some (step.completed, step.dispatched_at, step.output)

  -- Completed with this output, and waiting for no answer.
  abbrev pub IsCaptured : Option String → Option (Step F) → Type 0
  IsCaptured output o = left_as o ≡ some (true, none, output)

  force-waits :
      (index : ℕ) (run : WorkflowRun F)
      → is_some (force_approval_request index run).approval_request ≡ true
  unfolding force_approval_request
  force-waits index run = ground arith

  force-steps :
      (index : ℕ) (run : WorkflowRun F)
      → steps_of_run (force_approval_request index run) ≡ steps_of_run run
  unfolding force_approval_request
  force-steps index run = ground arith

  skipped-IsCaptured :
      (here after : Step F) (output : Option String)
      → (after ≡ here) ⊎ (after ≡ mark_skipped here)
      → IsCaptured output (some here)
      → IsCaptured output (some after)
  unfolding mark_skipped
  skipped-IsCaptured here after output (inl same) = rw same (λ h. h)
  skipped-IsCaptured here after output (inr skipped) = rw skipped (λ h. ap as_done h)

module _ {F : Type 0} ⦃fr : Fraction F⦄ where
  find_next-IsCaptured :
      (run : WorkflowRun F) (index : ℕ) (output : Option String)
      → IsCaptured output (get_elem? (steps_of_run run) index)
      → IsCaptured output (get_elem? (steps_of_run (find_next run).0) index)
  unfolding find_next
  find_next-IsCaptured run index output captured =
      elim (Bool-cases (is_some run.view.active_step_indices)) [
        | inr linear ↦ rw (find_next, linear) captured
        | inl frontier ↦ elim (Option-cases (ready_workflow_step_indices run.view)) [
          | inl e ↦ rw (find_next, frontier, e) captured
          | inr ((steps, ready), e) ↦ elim (Option-cases (get_elem? (steps_of_run run) index)) [
            | inl gone ↦ absurd (ground (arith, captured, gone))
            | inr (here, at) ↦
                let sound = ready_workflow_step_indices_sound run.view steps ready e in
                let (after, found, kept) = get_elem?-Skips _ steps index here sound.0 at in
                rw (find_next, frontier, e)
                  (rw found (skipped-IsCaptured here after output kept (rw at at captured)))
          ]
        ]
      ]

  -- The run goes on, or it waits for an approval.
  abbrev pub GoesOnOrWaits : WorkflowRun F × Next → Type 0
  GoesOnOrWaits out = (out.1 ≡ advance) ⊎ (is_some out.0.approval_request ≡ true)

  abbrev pub IsLeft : Option String → ℕ → WorkflowRun F × Next → Type 0
  IsLeft output index out =
      IsCaptured output (get_elem? (steps_of_run out.0) index) × GoesOnOrWaits out

  review-IsLeft :
      (index : ℕ) (in_branch : Bool) (run : WorkflowRun F) (has_next : Bool)
      (output : Option String)
      → IsCaptured output (get_elem? (steps_of_run run) index)
      → IsLeft output index (review_task index in_branch (run, has_next))
  unfolding maybe_request_approval
  review-IsLeft index in_branch run has_next output captured =
      elim (Bool-cases (not in_branch && has_next)) [
        | inr none_left ↦ rw (review_task, none_left) (captured, inl refl)
        | inl reviews ↦ elim (Bool-cases (is_true run.human_approval)) [
          | inl asks ↦
              rw (review_task, reviews, maybe_request_approval, asks)
                (rw (force-steps index run) captured, inr (force-waits index run))
          | inr quiet ↦
              rw (review_task, reviews, maybe_request_approval, quiet) (captured, inl refl)
        ]
      ]

  leave_task-IsLeft :
      (run : WorkflowRun F) (index : ℕ) (step : Step F) (output : Option String)
      → IsCaptured output (get_elem? (steps_of_run run) index)
      → IsLeft output index (leave_task run index step)
  unfolding leave_task maybe_pause_after_workflow_step
  leave_task-IsLeft run index step output captured =
      elim (Bool-cases (needs_approval_after (get_elem? (steps_of_run run) index))) [
        | inl pauses ↦
            rw (leave_task, maybe_pause_after_workflow_step, pauses)
              (rw (force-steps index run) captured, inr (force-waits index run))
        | inr goes_on ↦
            rw (leave_task, maybe_pause_after_workflow_step, goes_on)
              (review-IsLeft index (is_some step.branch) (find_next run).0 (find_next run).1 output
                (find_next-IsCaptured run index output captured))
      ]

  complete_task-IsLeft :
      (texts : Texts) (now : ℕ) (run : WorkflowRun F) (index : ℕ) (step here : Step F)
      (raw : String)
      → get_elem? (steps_of_run run) index ≡ some here
      → IsLeft
          (capture_output texts raw here).output
          index
          (complete_task texts now run index step raw)
  unfolding complete_task reset_step_after_completion mark_workflow_step_completed
  complete_task-IsLeft texts now run index step here raw at =
      leave_task-IsLeft
        (update_step index
          (λ s. reset_step_after_completion now true false (capture_output texts raw s)) run)
        index step (capture_output texts raw here).output
        (ap left_as (
          get_elem?-modify_self (steps_of_run run) index
            (λ s. reset_step_after_completion now true false (capture_output texts raw s)) here at))

  -- The task is asked again, or waits for an approval to be; what its fields are then.
  abbrev pub IsAskedAgain : TaskFields → ℕ → WorkflowRun F × Next → Type 0
  IsAskedAgain t index out = (out.1 ≡ halt) × (fields_at (steps_of_run out.0) index ≡ some t)

  or_unavailable-fields :
      (sent : WorkflowRun F × Dispatched) (step : Step F) (index : ℕ)
      → fields_at (steps_of_run (or_unavailable sent step)) index
        ≡ fields_at (steps_of_run sent.0) index
  unfolding or_unavailable
  or_unavailable-fields (run, not_dispatched) step index =
      elim (Bool-cases (is_some run.finished)) [
        | inl over ↦ rw (or_unavailable, over) refl
        | inr open_run ↦ rw (or_unavailable, open_run) (unavailable-fields run step index)
      ]
  or_unavailable-fields (run, sends names) step index = refl
  or_unavailable-fields (run, settled next) step index = refl

  pause_before-fields :
      (index : ℕ) (run : WorkflowRun F)
      → fields_at (steps_of_run (maybe_pause_before_workflow_step index run).0) index
        ≡ fields_at (steps_of_run run) index
  unfolding maybe_pause_before_workflow_step
  pause_before-fields index run =
      elim (Bool-cases (needs_approval_before (get_elem? (steps_of_run run) index))) [
        | inr free ↦ rw (maybe_pause_before_workflow_step, free) refl
        | inl waits ↦
            rw (maybe_pause_before_workflow_step, waits)
              (rw (force-steps index (update_step index grant_before run))
                (fields_at-modify (steps_of_run run) index grant_before index (λ s _. refl)))
      ]

  retry_task-IsAskedAgain :
      (members : List Reviewer) (now : ℕ) (uuid : String) (run : WorkflowRun F) (index : ℕ)
      (step : Step F) (name : String) (t : TaskFields)
      → fields_at (steps_of_run run) index ≡ some t
      → IsAskedAgain t index (retry_task members now uuid run index step name)
  unfolding retry_task clear_for_retry
  retry_task-IsAskedAgain members now uuid run index step name t at =
      let cleared = drop_response (update_step index clear_for_retry run) name in
      let paused = maybe_pause_before_workflow_step index cleared in
      let kept =
        pause_before-fields index cleared
        ∙ fields_at-modify (steps_of_run run) index clear_for_retry index (λ s _. refl)
        ∙ at in
      elim (Bool-cases paused.1) [
        | inl waits ↦ rw (retry_task, waits) (refl, kept)
        | inr free ↦
            rw (retry_task, free)
              (
                refl,
                or_unavailable-fields (dispatch_task_step members now uuid paused.0 index) step
                      index
                    ∙ dispatch_task_step-fields members now uuid paused.0 index index
                    ∙ kept,
              )
      ]

  -- The output that an idle finds for a step.
  abbrev pub output_found : WorkflowRun F → Step F → String → String
  output_found run step name = get_or (or_else step.output (lookup name run.responses)) ""

  -- When a member of a task is idle, either `retry_on` matches the output and a retry is left: then
  -- the run does not go on, and the task has one attempt more, which is within `maxTaskRetries`, also
  -- when nobody can be asked. Or else the step is completed, waits for no answer and
  -- has an output, its own or else the member's response cut to the step's cap; the run goes on, or it
  -- waits for an approval.
  pub task_idle_lem :
      (texts : Texts) (tests : OutputTests) (members : List Reviewer) (now : ℕ) (uuid : String)
      (run : WorkflowRun F) (index : ℕ) (step : Step F) (t : TaskFields) (name : String)
      → get_elem? (steps_of_run run) index ≡ some step
      → step.kind ≡ task t
      → let raw = output_found run step name in
        let out = handle_task_idle texts tests members now uuid run index step t name in
        ((asks_again tests t raw ≡ true)
          × (get_or t.task_attempts 0 + 1 ≤ get_or t.max_task_retries 0)
          × IsAskedAgain
              (record t { task_attempts = some (get_or t.task_attempts 0 + 1) })
              index
              out)
        ⊎ ((asks_again tests t raw ≡ false)
            × IsLeft
                (or_else step.output (
                  some (elim step.max_output_bytes [
                    | none ↦ raw
                    | some n ↦ truncate_output texts raw n
                  ])))
                index
                out)
  unfolding handle_task_idle asks_again
  task_idle_lem texts tests members now uuid run index step t name at is =
      let raw = output_found run step name in
      let counted = update_step index count_attempt_at run in
      let counted_at = get_elem?-modify_self (steps_of_run run) index count_attempt_at step at in
      elim (Bool-cases (should_retry_task tests t raw)) [
        | inr fine ↦
            rw (handle_task_idle, fine)
              (inr (refl, complete_task-IsLeft texts now run index step step raw at))
        | inl matches ↦ elim (Bool-cases (has_task_retry t)) [
          | inl left ↦
              rw (handle_task_idle, matches, left)
                (inl (
                  refl,
                  ground (arith, left),
                  retry_task-IsAskedAgain members now uuid counted index step name
                      (count_task_attempt t)
                      (ap task_fields counted_at ∙ ap (λ k. kind_fields (count_attempt_of k)) is),
                ))
          | inr used ↦
              rw (handle_task_idle, matches, used)
                (inr (
                  refl,
                  complete_task-IsLeft texts now counted index step (count_attempt_at step) raw
                      counted_at,
                ))
        ]
      ]
