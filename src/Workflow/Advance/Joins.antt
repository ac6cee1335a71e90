-- ===== src/Workflow/Advance/Joins.antt =====
-- src/orchestration/workflow/fanout.ts: how a join fires, with the dispatch of its reducer, and what a
-- dispatch that reaches nobody does to the run. The prompts that a reducer gets are left out.
pub mod Fires
pub mod Open
use octeam.Prelude.{
  ℕ, String, Bool, true, false, not, ◌&&◌, Option, none, some, List, [], ◌∷◌, get_or, or_else,
  get_elem?, str_eq, is_some, eq_string, if◌then◌else◌,
}
use octeam.Workflow.Types.{
  select, reduce, JoinMetadata, StepKind, task, gate, fanout, join, Step, TaskView,
}
use octeam.Workflow.JoinPolicy.{is_true}
use octeam.Workflow.JoinPolicy.Ieee.{Fraction}
use octeam.Workflow.Dag.Actors.{has_reducer}
use octeam.Workflow.Dag.Joins.{branch_id?}
use octeam.Workflow.Fanout.{
  FanoutErrorResult, not_fanout, within_tolerance, failed as branch_failed, distinct_from, without,
  join_of, branch_ids_for_join, set_join, mark_workflow_fanout_branch_errored,
}
use octeam.Workflow.Engine.State.{
  WorkflowRun, no_session, fanout_failed, steps_of_run, finish, drop_response,
  mark_workflow_step_dispatched, mark_workflow_step_completed,
}
use octeam.Workflow.Verdicts.Settle.{update_step}
use octeam.Modes.Signoff.{Reviewer}
use octeam.Workflow.Dispatch.Send.{live_workflow_actor, keep_names}
use octeam.Workflow.Advance.Truncate.{Texts}
use octeam.Workflow.Advance.Outputs.{build_branch_workflow_output, build_joined_workflow_output}

-- What `completeWorkflowJoinStep` returns.
pub data JoinAdvance : Type 0 where
  completed dispatched waiting failed noop : JoinAdvance

abbrev pub errored_or : List String → Option (List String) → Option (List String)
errored_or [] old = old
errored_or (id ∷ ids) old = some (id ∷ ids)

abbrev pub first_name : List String → Option String
first_name [] = none
first_name (name ∷ names) = some name

module _ {F : Type 0} where
  -- The first tail of the branch.
  unfoldable pub tail_of_branch : List (Step F) → String → List ℕ → Option (Step F)
  tail_of_branch steps id [] = none
  tail_of_branch steps id (t ∷ ts) =
      let later = tail_of_branch steps id ts in
      elim (get_elem? steps t) [
        | none ↦ later
        | some tail ↦ elim (branch_id? tail) [
          | none ↦ later
          | some own ↦ if str_eq own id then some tail else later
        ]
      ]

  unfoldable pub is_unskipped : List (Step F) → JoinMetadata F → String → Bool
  unfolding tail_of_branch
  is_unskipped steps j id = elim (tail_of_branch steps id j.branch_tail_indices) [
    | none ↦ true
    | some tail ↦ not (is_true tail.skipped)
  ]

  unfoldable pub survivor_branch_ids_for_join : List (Step F) → JoinMetadata F → List String
  unfolding keep_names is_unskipped without branch_ids_for_join
  survivor_branch_ids_for_join steps j =
      keep_names (is_unskipped steps j)
        (without (get_or j.errored_branch_ids []) (branch_ids_for_join steps j))

  unfoldable pub join_with_branch_status : List (Step F) → JoinMetadata F → JoinMetadata F
  unfolding survivor_branch_ids_for_join distinct_from
  join_with_branch_status steps j = record j {
    survivor_branch_ids = some (survivor_branch_ids_for_join steps j);
    errored_branch_ids =
        errored_or (distinct_from [] (get_or j.errored_branch_ids [])) j.errored_branch_ids;
  }

  -- The branches with an output, to choose from.
  unfoldable pub selectable_branch_ids_for_join : Texts → List (Step F) → ℕ → List String
  unfolding keep_names survivor_branch_ids_for_join build_branch_workflow_output
  selectable_branch_ids_for_join texts steps join_index =
      elim (join_of (get_elem? steps join_index)) [
        | none ↦ []
        | some j ↦
            keep_names
              (λ id. not (str_eq (build_branch_workflow_output texts steps join_index id) ""))
              (survivor_branch_ids_for_join steps j)
      ]

  -- The reducer's dispatch. Its last response is dropped.
  abbrev pub reducer_prompted : ℕ → String → String → Step F → Step F
  unfolding mark_workflow_step_dispatched
  reducer_prompted now uuid actor step = mark_workflow_step_dispatched now (record step {
    runtime = record step.runtime { dispatched_actor = some actor; correlation_id = some uuid };
  })

  unfoldable pub dispatch_workflow_join_reducer :
      List Reviewer → ℕ → String → WorkflowRun F → ℕ → WorkflowRun F × Bool
  unfolding live_workflow_actor
  dispatch_workflow_join_reducer members now uuid run index =
      elim (join_of (get_elem? (steps_of_run run) index)) [
        | none ↦ (run, false)
        | some j ↦
            if has_reducer j.join_policy && is_some j.reducer_member
            then elim (live_workflow_actor members j.reducer_member none) [
              | none ↦ (run, false)
              | some actor ↦ (
                update_step index (reducer_prompted now uuid actor.name)
                    (drop_response run actor.name),
                true,
              )
            ]
            else (run, false)
      ]

  abbrev pub release_reducer : Step F → Step F
  release_reducer step = record step {
    runtime = record step.runtime {
      dispatched_at = none;
      dispatched_actor = none;
      correlation_id = none;
    };
  }

  -- A reducer that is still live is waited for; one that is gone is replaced.
  unfoldable pub ask_reducer :
      List Reviewer
      → ℕ
      → String
      → WorkflowRun F
      → ℕ
      → Step F
      → JoinMetadata F
      → WorkflowRun F × JoinAdvance
  unfolding live_workflow_actor dispatch_workflow_join_reducer
  ask_reducer members now uuid run index step j =
      if is_some step.dispatched_at && is_some (live_workflow_actor members j.reducer_member none)
      then (run, waiting)
      else (let released =
            if is_some step.dispatched_at then update_step index release_reducer run else run in
          let (after, sent) = dispatch_workflow_join_reducer members now uuid released index in
          if sent
          then (after, dispatched)
          else (finish (no_session j.reducer_member) after, failed))

  -- The join with its output, and no longer dispatched.
  unfoldable pub fire_join : ℕ → JoinMetadata F → String → Step F → Step F
  unfolding mark_workflow_step_completed
  fire_join now j output step =
      let done =
        mark_workflow_step_completed now
          (set_join (record j { joined_output = some (get_or j.joined_output output) }) step) in
      record done {
        runtime = record done.runtime {
          dispatched_at = none;
          correlation_id = none;
          completed = true;
        };
      }

  unfoldable pub complete_workflow_join_step :
      Texts → List Reviewer → ℕ → String → WorkflowRun F → ℕ → WorkflowRun F × JoinAdvance
  unfolding join_with_branch_status ask_reducer fire_join build_joined_workflow_output
  complete_workflow_join_step texts members now uuid run index =
      let steps = steps_of_run run in
      elim (get_elem? steps index) [
        | none ↦ (run, noop)
        | some step ↦ elim (join_of (some step)) [
          | none ↦ (run, noop)
          | some j ↦
              let base = join_with_branch_status steps j in
              if step.completed
              then (run, noop)
              else if has_reducer base.join_policy && not (is_some base.joined_output)
              then ask_reducer members now uuid (update_step index (set_join base) run) index step
                  base
              else (
                update_step index
                    (fire_join now base (build_joined_workflow_output texts steps index)) run,
                completed,
              )
        ]
      ]

  unfoldable pub dispatch_failure_actor_name : StepKind F → Option String
  dispatch_failure_actor_name (task t) = some t.member
  dispatch_failure_actor_name (gate g) = or_else g.verifier (first_name (get_or g.verifiers []))
  dispatch_failure_actor_name (join none) = none
  dispatch_failure_actor_name (join (some j)) = j.reducer_member
  dispatch_failure_actor_name (fanout m) = none

-- `true` is "degraded", `false` is "failed".
module _ {F : Type 0} ⦃fr : Fraction F⦄ where
  abbrev pub settle_unavailable :
      String → WorkflowRun F → TaskView F × FanoutErrorResult → WorkflowRun F × Bool
  settle_unavailable name run (view, not_fanout) =
      (finish (no_session (some name)) (record run { view = view }), false)
  settle_unavailable name run (view, within_tolerance) = (record run { view = view }, true)
  settle_unavailable name run (view, branch_failed reason) =
      (finish (fanout_failed reason) (record run { view = view }), false)

  unfoldable pub handle_workflow_dispatch_unavailable :
      WorkflowRun F → Step F → WorkflowRun F × Bool
  unfolding dispatch_failure_actor_name mark_workflow_fanout_branch_errored
  handle_workflow_dispatch_unavailable run step = elim (dispatch_failure_actor_name step.kind) [
    | none ↦ (finish (no_session none) run, false)
    | some name ↦
        if is_some step.branch
        then settle_unavailable name run (mark_workflow_fanout_branch_errored run.view name)
        else (finish (no_session (some name)) run, false)
  ]
