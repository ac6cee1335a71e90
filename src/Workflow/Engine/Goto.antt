-- ===== src/Workflow/Engine/Goto.antt =====
-- src/orchestration/workflow/engine.ts: `gotoWorkflowStep` up to the dispatch of its target.
use octeam.Prelude.{
  ℕ, suc, ◌+◌, ◌-◌, String, Bool, true, ◌&&◌, none, some, List, [], ◌++◌, get_or, get_elem?, modify,
  ltb, is_some, eq_nat, if◌then◌else◌,
}
use octeam.Prelude.Ranges.{modify_range}
use octeam.Workflow.Types.{GateFields, task, gate, fanout, join, Step}
use octeam.Workflow.Gates.Targets.{gate_at}
use octeam.Workflow.Engine.State.{
  WorkflowRun, Next, halt, enter, jump_limit, default_max_jumps, steps_of_run, with_steps, finish,
  mark_workflow_step_completed, move_active_workflow_step, erase_all, name_list,
}
use octeam.Workflow.Engine.Rerun.{rerun_range}

module _ {F : Type 0} where
  -- A step between the gate and the target of a jump forward.
  unfoldable pub skip_over : ℕ → ℕ → Step F → Step F
  unfolding mark_workflow_step_completed
  skip_over now index step =
      if step.completed
      then step
      else mark_workflow_step_completed now
          (record step { runtime = record step.runtime { completed = true; skipped = some true } })

  -- `completed` and without a dispatch
  unfoldable pub settle_step : ℕ → Step F → Step F
  unfolding mark_workflow_step_completed
  settle_step now step =
      let done = mark_workflow_step_completed now step in
      record done {
        runtime = record done.runtime {
          completed = true;
          dispatched_at = none;
          dispatched_actor = none;
          correlation_id = none;
        };
      }

  -- Every member that may have answered for the gate.
  abbrev pub gate_actors : Step F → GateFields F → List String
  gate_actors step g =
      get_or g.verifiers [] ++ name_list g.verifier ++ name_list step.dispatched_actor

  abbrev pub on_gate : (GateFields F → GateFields F) → Step F → Step F
  on_gate f step = elim step.kind [
    | gate g ↦ record step { kind = gate (f g) }
    | task t ↦ step
    | fanout m ↦ step
    | join m ↦ step
  ]

  -- Writes to the fields of the gate at an index.
  unfoldable pub update_gate : ℕ → (GateFields F → GateFields F) → List (Step F) → List (Step F)
  update_gate index f steps = modify steps index (on_gate f)

  abbrev pub count_jump : GateFields F → GateFields F
  count_jump g = record g { jump_count = some (get_or g.jump_count 0 + 1) }

  -- A loop that the gate bounds itself: its jumps back on FAIL are not counted here.
  abbrev pub is_backward_loop : ℕ → ℕ → GateFields F → Bool → Bool
  is_backward_loop gate_index target_index g on_fail =
      ltb target_index gate_index && is_some g.loop && on_fail

  abbrev pub jump_limit_hit : GateFields F → Bool
  jump_limit_hit g = ltb (get_or g.max_jumps default_max_jumps) (get_or g.jump_count 0 + 1)

  -- The steps after the jump, the gate's own record included.
  unfoldable pub jump_steps : ℕ → ℕ → ℕ → List (Step F) → List (Step F)
  unfolding skip_over settle_step rerun_range modify_range
  jump_steps now gate_index target_index steps =
      if ltb gate_index target_index
      then modify
          (modify_range (skip_over now) (target_index - suc gate_index) (suc gate_index) steps)
          gate_index (settle_step now)
      else if ltb target_index gate_index
      then rerun_range target_index gate_index steps
      else steps

  -- The part of a jump after its count.
  unfoldable pub make_jump : ℕ → WorkflowRun F → ℕ → ℕ → Step F → GateFields F → WorkflowRun F
  unfolding jump_steps erase_all move_active_workflow_step
  make_jump now run gate_index target_index step g =
      let steps = jump_steps now gate_index target_index (steps_of_run run) in
      record run {
        view =
            move_active_workflow_step (record run.view { steps = some steps }) gate_index
              target_index;
        responses =
            if ltb gate_index target_index
            then erase_all (gate_actors step g) run.responses
            else run.responses;
      }

  -- `on_fail` says that the jump's verdict is FAIL.
  unfoldable pub goto_workflow_step : ℕ → WorkflowRun F → ℕ → ℕ → Bool → WorkflowRun F × Next
  unfolding update_gate make_jump
  goto_workflow_step now run gate_index target_index on_fail =
      let steps = steps_of_run run in
      elim (gate_at steps gate_index) [
        | none ↦ (run, halt)
        | some (step, g) ↦ elim (get_elem? steps target_index) [
          | none ↦ (run, halt)
          | some target ↦
              let counted = with_steps run (update_gate gate_index count_jump steps) in
              if is_backward_loop gate_index target_index g on_fail
              then (make_jump now run gate_index target_index step g, enter target_index)
              else if jump_limit_hit g
              then (finish (jump_limit g.verifier) counted, halt)
              else (make_jump now counted gate_index target_index step g, enter target_index)
        ]
      ]
