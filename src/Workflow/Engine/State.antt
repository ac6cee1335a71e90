-- ===== src/Workflow/Engine/State.antt =====
-- src/orchestration/workflow/engine.ts: the state of a workflow run and its small updates.
use octeam.Prelude.{
  ℕ, ◌-◌, String, Bool, false, ◌||◌, Option, none, some, List, [], ◌∷◌, get_or, or_else, get_elem?,
  nat_eq, eq_nat, if◌then◌else◌,
}
use octeam.Prelude.Assoc.{erase}
use octeam.Prelude.Member.{includes, push_unique}
use octeam.Workflow.Types.{StepRuntime, Step, TaskView}
use octeam.Workflow.Fanout.{FailReason}
use octeam.Workflow.Dag.Actors.{sorted_workflow_indices, get_active_workflow_step_indices}

-- Why a run is finished.
pub data RunReason : Type 0 where
  workflow_complete frontier_deadlock : RunReason
  gate_failed jump_limit no_session : Option String → RunReason
  invalid_verdict parse_failure : String → RunReason
  input_skipped : ℕ → List ℕ → RunReason
  fanout_failed : FailReason → RunReason

-- `none` while the run goes on; the approval request is the stage that it names.
pub record WorkflowRun (F : Type 0) : Type 0 where
  pub view : TaskView F
  pub responses : List (String × String)
  pub human_approval : Option Bool
  pub approval_request : Option ℕ
  pub finished : Option RunReason

-- What a handler hands on to: nothing more, the next ready steps, the target of a jump, or a step
-- that is dispatched again.
pub data Next : Type 0 where
  halt advance : Next
  enter retry : ℕ → Next

abbrev pub default_max_jumps : ℕ
default_max_jumps = 3

unfoldable pub reset_workflow_step_timing : StepRuntime → StepRuntime
reset_workflow_step_timing r = record r {
  started_at = none;
  completed_at = none;
  duration_ms = none;
  dispatched_at = none;
  dispatched_actor = none;
  correlation_id = none;
}

-- The loop of `moveActiveWorkflowStep`: the indices so far, and whether one was replaced.
unfoldable pub replace_active : ℕ → ℕ → List ℕ → List ℕ → Bool → List ℕ × Bool
unfolding push_unique includes
replace_active from to [] next replaced = (next, replaced)
replace_active from to (i ∷ is) next replaced =
    replace_active from to is (push_unique next (if nat_eq i from then to else i))
      (replaced || nat_eq i from)

-- The runtime fields that a jump back or a retry clears.
unfoldable pub rerun_runtime : StepRuntime → StepRuntime
unfolding reset_workflow_step_timing
rerun_runtime r = record (reset_workflow_step_timing r) {
  completed = false;
  skipped = some false;
  approval_before_granted = none;
}

unfoldable pub erase_all : List String → List (String × String) → List (String × String)
unfolding erase
erase_all [] responses = responses
erase_all (name ∷ names) responses = erase_all names (erase name responses)

abbrev pub name_list : Option String → List String
name_list none = []
name_list (some name) = name ∷ []

module _ {F : Type 0} where
  abbrev pub steps_of_run : WorkflowRun F → List (Step F)
  steps_of_run run = get_or run.view.steps []

  abbrev pub with_steps : WorkflowRun F → List (Step F) → WorkflowRun F
  with_steps run steps = record run { view = record run.view { steps = some steps } }

  abbrev pub finish : RunReason → WorkflowRun F → WorkflowRun F
  finish reason run = record run { finished = some reason }

  abbrev pub drop_response : WorkflowRun F → String → WorkflowRun F
  drop_response run name = record run { responses = erase name run.responses }

  unfoldable pub mark_workflow_step_dispatched : ℕ → Step F → Step F
  mark_workflow_step_dispatched now step = record step {
    runtime = record step.runtime {
      started_at = or_else step.started_at (some now);
      dispatched_at = some now;
    };
  }

  -- `-` on ℕ stops at 0, as `Math.max(0, …)` does.
  unfoldable pub mark_workflow_step_completed : ℕ → Step F → Step F
  mark_workflow_step_completed now step =
      let started = get_or step.started_at (get_or step.dispatched_at now) in
      record step {
        runtime = record step.runtime {
          started_at = some started;
          completed_at = some now;
          duration_ms = some (now - started);
        };
      }

  unfoldable pub move_active_workflow_step : TaskView F → ℕ → ℕ → TaskView F
  unfolding replace_active sorted_workflow_indices get_active_workflow_step_indices
  move_active_workflow_step t from to = elim t.active_step_indices [
    | none ↦ record t { current_stage_index = to }
    | some indices ↦
        let (next, replaced) = replace_active from to indices [] false in
        let active = sorted_workflow_indices (if replaced then next else push_unique next to) in
        record t {
          active_step_indices = some active;
          current_stage_index = get_or (get_elem? active 0) to;
        }
  ]
