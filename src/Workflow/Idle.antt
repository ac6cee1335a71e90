-- ===== src/Workflow/Idle.antt =====
-- src/orchestration/workflow/handler.ts: the idle of a member whose step is active. Events, prompts
-- and saving are left out.
pub mod Tasks
pub mod Joins
pub mod Kept
pub mod Asked
pub mod Selected
use octeam.Prelude.{
  ℕ, String, Bool, true, false, not, ◌&&◌, ◌||◌, Option, none, some, List, get_elem?, is_some,
  if◌then◌else◌,
}
use octeam.Prelude.Assoc.{lookup}
use octeam.Workflow.Types.{GateFields, StepKind, task, gate, fanout, join, Step}
use octeam.Workflow.JoinPolicy.Ieee.{Fraction}
use octeam.Workflow.Dag.Actors.{ensemble_result, find_active_workflow_step_index_for_member}
use octeam.Workflow.Engine.State.{WorkflowRun, Next, halt, steps_of_run}
use octeam.Workflow.Verdicts.Collect.{ParsedVerdict, handle_gate_verdict}
use octeam.Modes.Signoff.{Reviewer}
use octeam.Workflow.Advance.Truncate.{Texts}
use octeam.Workflow.Idle.Tasks.{OutputTests, handle_task_idle}
use octeam.Workflow.Idle.Joins.{Selection, handle_join_idle}

abbrev pub is_nothing_new : Option Bool → Bool
is_nothing_new none = false
is_nothing_new (some new) = not new

module _ {F : Type 0} where
  -- A stale idle of a member that has nothing new: `true` is an idle to ignore.
  unfoldable pub is_stale_for : Option (GateFields F × List String) → WorkflowRun F → String → Bool
  unfolding lookup
  is_stale_for none run name = true
  is_stale_for (some (g, names)) run name =
      is_some (ensemble_result g name) || not (is_some (lookup name run.responses))

  abbrev pub is_stale_kind : StepKind F → Step F → WorkflowRun F → String → Bool
  unfolding is_stale_for
  is_stale_kind (task t) step run name = is_some step.output
  is_stale_kind (gate g) step run name =
      is_some step.output
      && elim g.verifiers [ none ↦ true | some names ↦ is_stale_for (some (g, names)) run name ]
  is_stale_kind (fanout m) step run name = false
  is_stale_kind (join m) step run name = true

module _ {F : Type 0} ⦃fr : Fraction F⦄ (texts : Texts) (tests : OutputTests)
    (parse : String → Option Selection) (parse_verdict : String → ParsedVerdict F)
    (snapshot : String → String) where
  abbrev pub idle_by_kind :
      StepKind F
      → List Reviewer
      → ℕ
      → String
      → WorkflowRun F
      → ℕ
      → Step F
      → String
      → WorkflowRun F × Next
  unfolding handle_task_idle handle_join_idle handle_gate_verdict
  idle_by_kind (task t) members now uuid run index step name =
      handle_task_idle texts tests members now uuid run index step t name
  idle_by_kind (gate g) members now uuid run index step name =
      handle_gate_verdict parse_verdict snapshot now run index name
  idle_by_kind (fanout m) members now uuid run index step name = (run, halt)
  idle_by_kind (join m) members now uuid run index step name =
      handle_join_idle texts parse now run index step m name

  unfoldable pub handle_workflow_idle :
      List Reviewer → ℕ → String → WorkflowRun F → String → Option Bool → WorkflowRun F × Next
  unfolding find_active_workflow_step_index_for_member idle_by_kind
  handle_workflow_idle members now uuid run name captured_new =
      elim (find_active_workflow_step_index_for_member run.view name) [
        | none ↦ (run, halt)
        | some index ↦ elim (get_elem? (steps_of_run run) index) [
          | none ↦ (run, halt)
          | some step ↦
              if is_nothing_new captured_new && is_stale_kind step.kind step run name
              then (run, halt)
              else idle_by_kind step.kind members now uuid run index step name
        ]
      ]
