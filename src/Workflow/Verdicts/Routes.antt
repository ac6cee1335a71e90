-- ===== src/Workflow/Verdicts/Routes.antt =====
-- src/orchestration/workflow/verdict.ts: `handleGatePass`, `handleGateFail` and `handleGateRetry`.
use octeam.Prelude.{
  ℕ, suc, ◌+◌, ◌-◌, String, Bool, true, false, Option, none, some, List, get_or, get_elem?, ltb,
  nat_eq, if◌then◌else◌,
}
use octeam.Prelude.Ranges.{modify_range}
use octeam.Workflow.Types.{
  OnFail, OnExhaust, LoopConfig, GateFields, task, gate, fanout, join, Step,
}
use octeam.Workflow.JoinPolicy.{is_true}
use octeam.Workflow.JoinPolicy.Ieee.{Fraction}
use octeam.Workflow.Gates.Targets.{gate_target_index}
use octeam.Workflow.Gates.Conditions.{Goto, stay, invalid, jump, gated_goto_index}
use octeam.Workflow.Engine.State.{
  WorkflowRun, Next, halt, gate_failed, steps_of_run, with_steps, finish, drop_response,
  move_active_workflow_step,
}
use octeam.Workflow.Engine.Rerun.{rerun_step}
use octeam.Workflow.Engine.Goto.{update_gate, goto_workflow_step}
use octeam.Workflow.Verdicts.Settle.{
  reset_step_after_completion, update_step, maybe_pause_after_workflow_step,
  maybe_pause_before_workflow_step, advance_after_review, continue_after,
}
use octeam.Workflow.Verdicts.Invalid.{handle_invalid_verdict}

module _ {F : Type 0} where
  abbrev pub complete : ℕ → ℕ → Bool → WorkflowRun F → WorkflowRun F
  unfolding reset_step_after_completion
  complete now index skipped run =
      update_step index (reset_step_after_completion now true skipped) run

  abbrev pub fail_the_run : String → WorkflowRun F → WorkflowRun F × Next
  fail_the_run name run = (finish (gate_failed (some name)) run, halt)

  -- PASS: what follows the pause of `approval_after`.
  unfoldable pub pass_to :
      Goto → ℕ → WorkflowRun F → ℕ → Step F → GateFields F → String → WorkflowRun F × Next
  unfolding complete reset_step_after_completion advance_after_review goto_workflow_step
      handle_invalid_verdict
  pass_to stay now run index step g name =
      advance_after_review index step (complete now index false run)
  pass_to (jump target) now run index step g name = goto_workflow_step now run index target false
  pass_to invalid now run index step g name = handle_invalid_verdict now run index step g name false

  abbrev pub count_loop : GateFields F → GateFields F
  count_loop g = record g { loop_iterations = some (get_or g.loop_iterations 0 + 1) }

  -- The loop has run as often as it may.
  unfoldable pub exhausted :
      OnExhaust → ℕ → WorkflowRun F → ℕ → Step F → String → WorkflowRun F × Next
  unfolding complete reset_step_after_completion advance_after_review
  exhausted OnExhaust.go_on now run index step name =
      advance_after_review index step (complete now index false (drop_response run name))
  exhausted OnExhaust.fail_run now run index step name = fail_the_run name run

  unfoldable pub loop_or_goto :
      Option LoopConfig
      → ℕ
      → WorkflowRun F
      → ℕ
      → ℕ
      → Step F
      → GateFields F
      → String
      → WorkflowRun F × Next
  unfolding update_gate exhausted goto_workflow_step
  loop_or_goto none now run index target step g name = goto_workflow_step now run index target true
  loop_or_goto (some loop) now run index target step g name =
      let counted = with_steps run (update_gate index count_loop (steps_of_run run)) in
      if ltb target index
      then (if ltb loop.max_iterations (get_or g.loop_iterations 0 + 1)
          then exhausted loop.on_exhaust now counted index step name
          else goto_workflow_step now counted index target true)
      else goto_workflow_step now run index target true

  -- FAIL with `on_fail=fail`
  unfoldable pub fail_to :
      Goto → ℕ → WorkflowRun F → ℕ → Step F → GateFields F → String → WorkflowRun F × Next
  unfolding loop_or_goto handle_invalid_verdict
  fail_to stay now run index step g name = fail_the_run name run
  fail_to (jump target) now run index step g name =
      loop_or_goto g.loop now run index target step g name
  fail_to invalid now run index step g name = handle_invalid_verdict now run index step g name false

  unfoldable pub skip_gate : ℕ → WorkflowRun F → ℕ → Step F → String → WorkflowRun F × Next
  unfolding complete reset_step_after_completion continue_after
  skip_gate now run index step name =
      continue_after index step (complete now index true (drop_response run name))

  -- FAIL when the gate's retries are used up
  unfoldable pub give_up_to :
      Goto → ℕ → WorkflowRun F → ℕ → Step F → GateFields F → String → WorkflowRun F × Next
  unfolding goto_workflow_step handle_invalid_verdict
  give_up_to stay now run index step g name = fail_the_run name run
  give_up_to (jump target) now run index step g name = goto_workflow_step now run index target true
  give_up_to invalid now run index step g name =
      handle_invalid_verdict now run index step g name false

  abbrev pub rerun_before : ℕ → ℕ → Step F → Step F
  unfolding rerun_step
  rerun_before gate_index index step = rerun_step (nat_eq index gate_index) step.kind step.runtime

  -- The steps from the producer to the gate, which run again.
  unfoldable pub retry_steps : ℕ → ℕ → List (Step F) → List (Step F)
  unfolding modify_range rerun_before rerun_step
  retry_steps producer gate_index steps =
      modify_range (rerun_before gate_index) (suc gate_index - producer) producer steps

  abbrev pub is_task : Option (Step F) → Bool
  is_task none = false
  is_task (some step) = elim step.kind [
    | task t ↦ true
    | gate g ↦ false
    | fanout m ↦ false
    | join m ↦ false
  ]

  abbrev pub clear_actor : Step F → Step F
  clear_actor step = record step { runtime = record step.runtime { dispatched_actor = none } }

  unfoldable pub retry_from : ℕ → WorkflowRun F → ℕ → String → WorkflowRun F × Next
  unfolding retry_steps maybe_pause_before_workflow_step move_active_workflow_step
  retry_from producer run index name =
      let again = with_steps run (retry_steps producer index (steps_of_run run)) in
      let moved = record again { view = move_active_workflow_step again.view index producer } in
      let (after, paused) = maybe_pause_before_workflow_step producer moved in
      if is_task (get_elem? (steps_of_run again) producer)
      then (if paused
          then (after, halt)
          else (update_step index clear_actor after, Next.retry producer))
      else fail_the_run name again

  abbrev pub count_attempt : GateFields F → GateFields F
  count_attempt g = record g { attempts = some (get_or g.attempts 0 + 1) }

  abbrev pub retries_used_up : GateFields F → Bool
  retries_used_up g = ltb (get_or g.max_retries 0) (get_or g.attempts 0 + 1)

module _ {F : Type 0} ⦃fr : Fraction F⦄ where
  -- PASS, once the gate of an `approval_after` is completed
  unfoldable pub leave_gate :
      ℕ → WorkflowRun F → ℕ → Step F → GateFields F → String → WorkflowRun F × Next
  unfolding maybe_pause_after_workflow_step pass_to gated_goto_index
  leave_gate now run index step g name =
      let (after, paused) = maybe_pause_after_workflow_step index run in
      if paused
      then (after, halt)
      else pass_to (gated_goto_index (steps_of_run after) index g.on_pass_goto) now after index step
          g name

  unfoldable pub handle_gate_pass :
      ℕ → WorkflowRun F → ℕ → Step F → GateFields F → String → WorkflowRun F × Next
  unfolding complete reset_step_after_completion leave_gate
  handle_gate_pass now run index step g name =
      let dropped = drop_response run name in
      let marked =
        if is_true step.approval_after then complete now index false dropped else dropped in
      leave_gate now marked index step g name

  -- `on_fail=retry` is `handle_gate_retry`.
  unfoldable pub fail_unless_skipped :
      OnFail → ℕ → WorkflowRun F → ℕ → Step F → GateFields F → String → WorkflowRun F × Next
  unfolding skip_gate fail_to gated_goto_index
  fail_unless_skipped OnFail.skip now run index step g name = skip_gate now run index step name
  fail_unless_skipped _ now run index step g name =
      fail_to (gated_goto_index (steps_of_run run) index g.on_fail_goto) now run index step g name

  unfoldable pub handle_gate_fail :
      ℕ → WorkflowRun F → ℕ → Step F → GateFields F → String → WorkflowRun F × Next
  unfolding fail_unless_skipped
  handle_gate_fail now run index step g name =
      fail_unless_skipped (get_or g.on_fail OnFail.fail_run) now run index step g name

  unfoldable pub handle_gate_retry :
      ℕ → WorkflowRun F → ℕ → Step F → GateFields F → String → WorkflowRun F × Next
  unfolding update_gate give_up_to gated_goto_index gate_target_index retry_from
  handle_gate_retry now run index step g name =
      let dropped = drop_response run name in
      let counted = with_steps dropped (update_gate index count_attempt (steps_of_run run)) in
      if retries_used_up g
      then give_up_to (gated_goto_index (steps_of_run counted) index g.on_fail_goto) now counted
          index step g name
      else elim (gate_target_index (steps_of_run counted) index) [
        | none ↦ fail_the_run name counted
        | some producer ↦ retry_from producer counted index name
      ]
