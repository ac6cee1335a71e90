-- ===== src/Workflow/Verdicts/Invalid.antt =====
-- src/orchestration/workflow/verdict.ts: `handleInvalidVerdict`, for a verdict that cannot be
-- evaluated. A new dispatch of the verifier is handed on as `retry`.
use octeam.Prelude.{
  ℕ, ◌+◌, String, Bool, true, false, ◌&&◌, Option, none, some, get_or, ltb, is_some, if◌then◌else◌,
}
use octeam.Workflow.Types.{OnInvalid, OnMalformed, GateFields, Step}
use octeam.Workflow.Engine.State.{
  WorkflowRun, RunReason, Next, halt, retry, invalid_verdict, parse_failure, steps_of_run,
  with_steps, finish, drop_response, reset_workflow_step_timing,
}
use octeam.Workflow.Engine.Goto.{update_gate, goto_workflow_step}
use octeam.Workflow.Verdicts.Settle.{
  reset_step_after_completion, update_step, force_approval_request,
  maybe_pause_before_workflow_step, continue_after,
}

abbrev pub as_malformed_policy : OnInvalid → OnMalformed
as_malformed_policy OnInvalid.fail_run = OnMalformed.fail_run
as_malformed_policy OnInvalid.retry_verifier = OnMalformed.retry_verifier
as_malformed_policy OnInvalid.escalate = OnMalformed.escalate

abbrev pub unevaluated_reason : Bool → String → RunReason
unevaluated_reason true name = parse_failure name
unevaluated_reason false name = invalid_verdict name

module _ {F : Type 0} where
  -- `malformed` is the reason `parse_failure`, else it is `INVALID`.
  abbrev pub policy_of : Bool → GateFields F → OnMalformed
  policy_of true g =
      get_or g.on_malformed (as_malformed_policy (get_or g.on_invalid OnInvalid.fail_run))
  policy_of false g = as_malformed_policy (get_or g.on_invalid OnInvalid.fail_run)

  abbrev pub uses_malformed : Bool → GateFields F → Bool
  uses_malformed malformed g = malformed && is_some g.on_malformed

  -- A retry starts with no results of the verifiers.
  abbrev pub forget_results : GateFields F → GateFields F
  forget_results g = if is_some g.verifiers then record g { ensemble_results = none } else g

  abbrev pub count_unevaluated : Bool → GateFields F → GateFields F
  count_unevaluated own g =
      if own
      then record g { malformed_attempts = some (get_or g.malformed_attempts 0 + 1) }
      else record g { invalid_attempts = some (get_or g.invalid_attempts 0 + 1) }

  abbrev pub retries_exhausted : Bool → GateFields F → Bool
  retries_exhausted own g =
      if own
      then ltb (get_or g.max_malformed_retries 0) (get_or g.malformed_attempts 0 + 1)
      else ltb (get_or g.max_invalid_retries 0) (get_or g.invalid_attempts 0 + 1)

  -- `on_invalid_goto`, or the end of the run.
  unfoldable pub goto_or_finish :
      ℕ → WorkflowRun F → ℕ → Option ℕ → RunReason → WorkflowRun F × Next
  unfolding goto_workflow_step
  goto_or_finish now run index none reason = (finish reason run, halt)
  goto_or_finish now run index (some target) reason = goto_workflow_step now run index target false

  abbrev pub reset_timing : Step F → Step F
  reset_timing step = record step { runtime = reset_workflow_step_timing step.runtime }

  -- A pause before the step, or its dispatch.
  unfoldable pub pause_or : ℕ → Next → WorkflowRun F → WorkflowRun F × Next
  unfolding maybe_pause_before_workflow_step
  pause_or index next run =
      let (after, paused) = maybe_pause_before_workflow_step index run in
      (after, if paused then halt else next)

  unfoldable pub retry_the_verifier :
      ℕ → WorkflowRun F → ℕ → GateFields F → String → Bool → WorkflowRun F × Next
  unfolding update_gate goto_or_finish pause_or reset_workflow_step_timing
  retry_the_verifier now run index g name malformed =
      let own = uses_malformed malformed g in
      let counted =
        with_steps run
          (update_gate index (λ x. forget_results (count_unevaluated own x)) (steps_of_run run)) in
      if retries_exhausted own g
      then goto_or_finish now counted index g.on_invalid_goto (unevaluated_reason malformed name)
      else pause_or index (retry index)
          (update_step index reset_timing (drop_response counted name))

  unfoldable pub by_invalid_policy :
      OnMalformed
      → ℕ
      → WorkflowRun F
      → ℕ
      → Step F
      → GateFields F
      → String
      → Bool
      → WorkflowRun F × Next
  unfolding retry_the_verifier goto_or_finish reset_step_after_completion continue_after
      force_approval_request
  by_invalid_policy OnMalformed.skip now run index step g name malformed =
      continue_after index step
        (update_step index (reset_step_after_completion now true true) (drop_response run name))
  by_invalid_policy OnMalformed.retry_verifier now run index step g name malformed =
      retry_the_verifier now run index g name malformed
  by_invalid_policy OnMalformed.escalate now run index step g name malformed = (
    force_approval_request index
        (update_step index (reset_step_after_completion now true false) run),
    halt,
  )
  by_invalid_policy OnMalformed.fail_run now run index step g name malformed =
      goto_or_finish now run index g.on_invalid_goto (unevaluated_reason malformed name)

  unfoldable pub handle_invalid_verdict :
      ℕ → WorkflowRun F → ℕ → Step F → GateFields F → String → Bool → WorkflowRun F × Next
  unfolding by_invalid_policy
  handle_invalid_verdict now run index step g name malformed =
      by_invalid_policy (policy_of malformed g) now run index step g name malformed
