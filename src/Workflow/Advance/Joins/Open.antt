-- ===== src/Workflow/Advance/Joins/Open.antt =====
-- What a join of fanout.ts, and a dispatch to nobody, may end a run as.
use octeam.Prelude.{
  ℕ, ◌≡◌, inl, inr, refl, ap, ◌∙◌, String, true, not, ◌&&◌, Option, none, some, List, arith,
  get_elem?, is_some, Bool-cases, Option-cases, if◌then◌else◌, eq_nat,
}
use octeam.Workflow.Types.{JoinMetadata, Step, TaskView}
use octeam.Workflow.JoinPolicy.Ieee.{Fraction}
use octeam.Workflow.Dag.Actors.{has_reducer}
use octeam.Workflow.Fanout.{
  join_of, set_join, FanoutErrorResult, not_fanout, within_tolerance, failed,
  mark_workflow_fanout_branch_errored,
}
use octeam.Workflow.Engine.State.{WorkflowRun, no_session, steps_of_run, finish}
use octeam.Workflow.Verdicts.Settle.{update_step}
use octeam.Modes.Signoff.{Reviewer}
use octeam.Workflow.Dispatch.Send.{live_workflow_actor}
use octeam.Workflow.Advance.Joins.{
  JoinAdvance, dispatch_workflow_join_reducer, ask_reducer, complete_workflow_join_step,
  join_with_branch_status, release_reducer, dispatch_failure_actor_name, settle_unavailable,
  handle_workflow_dispatch_unavailable,
}
use octeam.Workflow.Advance.Truncate.{Texts}
use octeam.Workflow.Dispatch.Open.{is_open}

module _ {F : Type 0} ⦃fr : Fraction F⦄ where
  settle_unavailable-open :
      (name : String) (run : WorkflowRun F) (out : TaskView F × FanoutErrorResult)
      → is_open run.finished ≡ true
      → is_open (settle_unavailable name run out).0.finished ≡ true
  settle_unavailable-open name run (view, not_fanout) h = refl
  settle_unavailable-open name run (view, within_tolerance) h = h
  settle_unavailable-open name run (view, failed reason) h = refl

  pub unavailable-open :
      (run : WorkflowRun F) (step : Step F)
      → is_open run.finished ≡ true
      → is_open (handle_workflow_dispatch_unavailable run step).0.finished ≡ true
  unfolding handle_workflow_dispatch_unavailable
  unavailable-open run step h = elim (Option-cases (dispatch_failure_actor_name step.kind)) [
    | inl e ↦ rw (handle_workflow_dispatch_unavailable, e) refl
    | inr (name, e) ↦ elim (Bool-cases (is_some step.branch)) [
      | inr top ↦ rw (handle_workflow_dispatch_unavailable, e, top) refl
      | inl in_branch ↦
          rw (handle_workflow_dispatch_unavailable, e, in_branch)
            (settle_unavailable-open name run (mark_workflow_fanout_branch_errored run.view name) h)
    ]
  ]

  reducer-finished :
      (members : List Reviewer) (now : ℕ) (uuid : String) (run : WorkflowRun F) (index : ℕ)
      → (dispatch_workflow_join_reducer members now uuid run index).0.finished ≡ run.finished
  unfolding dispatch_workflow_join_reducer
  reducer-finished members now uuid run index = ground arith

  sent_or_failed-open :
      (members : List Reviewer) (now : ℕ) (uuid : String) (run : WorkflowRun F) (index : ℕ)
      (name : Option String)
      → is_open run.finished ≡ true
      → let (after, prompted) = dispatch_workflow_join_reducer members now uuid run index in
        is_open
          (if◌then◌else◌ {A = WorkflowRun F × JoinAdvance} prompted
            (after, JoinAdvance.dispatched)
            (finish (no_session name) after, JoinAdvance.failed)).0.finished
        ≡ true
  sent_or_failed-open members now uuid run index name h =
      let out = dispatch_workflow_join_reducer members now uuid run index in
      elim (Bool-cases out.1) [
        | inl prompted ↦ rw prompted (ap is_open (reducer-finished members now uuid run index) ∙ h)
        | inr gone ↦ rw gone refl
      ]

  ask_reducer-open :
      (members : List Reviewer) (now : ℕ) (uuid : String) (run : WorkflowRun F) (index : ℕ)
      (step : Step F) (j : JoinMetadata F)
      → is_open run.finished ≡ true
      → is_open (ask_reducer members now uuid run index step j).0.finished ≡ true
  unfolding ask_reducer
  ask_reducer-open members now uuid run index step j h =
      elim (Bool-cases (is_some step.dispatched_at)) [
        | inr free ↦
            rw (ask_reducer, free)
              (sent_or_failed-open members now uuid run index j.reducer_member h)
        | inl asked ↦
            elim (Bool-cases (is_some (live_workflow_actor members j.reducer_member none))) [
              | inl live ↦ rw (ask_reducer, asked, live) h
              | inr gone ↦
                  rw (ask_reducer, asked, gone)
                    (sent_or_failed-open members now uuid (update_step index release_reducer run)
                      index j.reducer_member h)
            ]
      ]

  pub join-open :
      (texts : Texts) (members : List Reviewer) (now : ℕ) (uuid : String) (run : WorkflowRun F)
      (index : ℕ)
      → is_open run.finished ≡ true
      → is_open (complete_workflow_join_step texts members now uuid run index).0.finished ≡ true
  unfolding complete_workflow_join_step
  join-open texts members now uuid run index h =
      elim (Option-cases (get_elem? (steps_of_run run) index)) [
        | inl e ↦ rw (complete_workflow_join_step, e) h
        | inr (step, e) ↦ elim (Option-cases (join_of (some step))) [
          | inl other ↦ rw (complete_workflow_join_step, e, other) h
          | inr (j, has) ↦ elim (Bool-cases step.completed) [
            | inl over ↦ rw (complete_workflow_join_step, e, has, over) h
            | inr still ↦
                let base = join_with_branch_status (steps_of_run run) j in
                elim (Bool-cases (has_reducer j.join_policy && not (is_some j.joined_output))) [
                  | inl waits ↦
                      rw (complete_workflow_join_step, e, has, still, waits)
                        (ask_reducer-open members now uuid (update_step index (set_join base) run)
                          index step base h)
                  | inr fires ↦ rw (complete_workflow_join_step, e, has, still, fires) h
                ]
          ]
        ]
      ]
