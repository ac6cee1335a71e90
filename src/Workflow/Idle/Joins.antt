-- ===== src/Workflow/Idle/Joins.antt =====
-- src/orchestration/workflow/handler.ts: the response of a join's reducer or selector, `handleJoinIdle`.
use octeam.Prelude.{
  ℕ, String, Bool, false, not, ◌||◌, Option, none, some, get_or, or_else, str_eq, eq_string,
  if◌then◌else◌,
}
use octeam.Prelude.Assoc.{lookup}
use octeam.Prelude.Member.{includes}
use octeam.Workflow.Types.{select, reduce, JoinPolicy, JoinMetadata, Step}
use octeam.Workflow.Fanout.{set_join}
use octeam.Workflow.Engine.State.{
  WorkflowRun, Next, halt, advance, parse_failure, steps_of_run, finish,
}
use octeam.Workflow.Verdicts.Settle.{update_step, reset_step_after_completion}
use octeam.Workflow.Advance.Truncate.{Texts}
use octeam.Workflow.Advance.Outputs.{build_branch_workflow_output}
use octeam.Workflow.Advance.Joins.{selectable_branch_ids_for_join}

-- The tagged JSON of a selection; `none` is one that cannot be parsed.
pub record Selection : Type 0 where
  pub winner : String
  pub rationale : String

module _ {F : Type 0} where
  -- A join's output is taken over; `advanceWorkflowStep` completes the join.
  unfoldable pub take_output : ℕ → JoinMetadata F → Step F → Step F
  unfolding reset_step_after_completion
  take_output now j step = reset_step_after_completion now false false (set_join j step)

  abbrev pub select_branch : Selection → String → JoinMetadata F → JoinMetadata F
  select_branch s output j = record j {
    selected_branch_id = some s.winner;
    selection_rationale = some s.rationale;
    joined_output = some output;
  }

  abbrev pub is_reducer : Step F → JoinMetadata F → String → Bool
  is_reducer step j name = elim (or_else step.dispatched_actor j.reducer_member) [
    | none ↦ false
    | some actor ↦ str_eq actor name
  ]

  -- The response of a selector: a branch that can be selected, with its output.
  unfoldable pub take_selection :
      Texts
      → ℕ
      → WorkflowRun F
      → ℕ
      → JoinMetadata F
      → String
      → Option Selection
      → WorkflowRun F × Next
  unfolding includes selectable_branch_ids_for_join build_branch_workflow_output take_output
  take_selection texts now run index j name none = (finish (parse_failure name) run, halt)
  take_selection texts now run index j name (some s) =
      let steps = steps_of_run run in
      let output = build_branch_workflow_output texts steps index s.winner in
      if not (includes (selectable_branch_ids_for_join texts steps index) s.winner)
        || str_eq output ""
      then (finish (parse_failure name) run, halt)
      else (update_step index (take_output now (select_branch s output j)) run, advance)

  module _ (texts : Texts) (parse : String → Option Selection) where
    unfoldable pub take_join_response :
        Option JoinPolicy
        → ℕ
        → WorkflowRun F
        → ℕ
        → JoinMetadata F
        → String
        → String
        → WorkflowRun F × Next
    unfolding take_selection take_output
    take_join_response (some select) now run index j name response =
        take_selection texts now run index j name (parse response)
    take_join_response (some reduce) now run index j name response = (
      update_step index (take_output now (record j { joined_output = some response })) run,
      advance,
    )
    take_join_response _ now run index j name response = (run, halt)

    unfoldable pub handle_join_idle :
        ℕ → WorkflowRun F → ℕ → Step F → Option (JoinMetadata F) → String → WorkflowRun F × Next
    unfolding take_join_response lookup
    handle_join_idle now run index step none name = (run, halt)
    handle_join_idle now run index step (some j) name =
        if is_reducer step j name
        then take_join_response j.join_policy now run index j name
            (get_or (lookup name run.responses) "")
        else (run, halt)
