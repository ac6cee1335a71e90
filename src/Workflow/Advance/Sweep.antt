-- ===== src/Workflow/Advance/Sweep.antt =====
-- src/orchestration/workflow/engine.ts: one round of the loop of `advanceWorkflowStep`, over the ready
-- steps.
use octeam.Prelude.{
  ℕ, String, Bool, true, false, not, ◌&&◌, ◌||◌, Option, none, some, List, [], ◌∷◌, map, any,
  or_else, get_elem?, leb, nat_eq, is_some, eq_nat, if◌then◌else◌,
}
use octeam.Prelude.Assoc.{lookup}
use octeam.Prelude.Member.{includes}
use octeam.Workflow.Types.{BranchRange, FanoutMetadata, StepKind, task, gate, fanout, join, Step}
use octeam.Workflow.JoinPolicy.Ieee.{Fraction}
use octeam.Workflow.Dag.Actors.{ensemble_result}
use octeam.Workflow.Engine.State.{WorkflowRun, Next, steps_of_run}
use octeam.Workflow.Verdicts.Settle.{
  update_step, maybe_request_approval, maybe_pause_before_workflow_step,
}
use octeam.Modes.Signoff.{Reviewer}
use octeam.Workflow.Dispatch.Send.{Dispatched, not_dispatched, sends, settled, dispatch_task_step}
use octeam.Workflow.Dispatch.Verifiers.{dispatch_gate_step}
use octeam.Workflow.Advance.Truncate.{Texts}
use octeam.Workflow.Advance.Joins.{
  JoinAdvance, completed, dispatched, waiting, failed, noop, complete_workflow_join_step,
  handle_workflow_dispatch_unavailable,
}

-- What a call is made with: the team, the prompts that reach a verifier, the time and the id of a
-- dispatch, and whether `maybeTriggerSignoff` takes over when all steps are completed.
pub record Host : Type 0 where
  pub members : List Reviewer
  pub send : String → Bool
  pub now : ℕ
  pub uuid : String
  pub texts : Texts
  pub signs_off : Bool

-- The end of a sweep or of one of its steps: the call returns, a member was asked, or neither.
pub data StepSwept : Type 0 where
  stopped sent nothing : StepSwept

abbrev pub has_sent : Bool → StepSwept
has_sent true = sent
has_sent false = nothing

abbrev pub has_response : List (String × String) → Option String → Bool
unfolding lookup
has_response responses none = false
has_response responses (some name) = is_some (lookup name responses)

module _ {F : Type 0} where
  abbrev pub kind_has_pending : List (String × String) → StepKind F → Option String → Bool
  kind_has_pending responses (task t) actor = has_response responses (some t.member)
  kind_has_pending responses (gate g) actor = elim g.verifiers [
    | some names ↦
        any (λ v. has_response responses (some v) && not (is_some (ensemble_result g v))) names
    | none ↦ has_response responses (or_else g.verifier actor)
  ]
  kind_has_pending responses (fanout m) actor = false
  kind_has_pending responses (join m) actor = false

  unfoldable pub step_has_pending_response : List (String × String) → Step F → Bool
  unfolding lookup
  step_has_pending_response responses step =
      kind_has_pending responses step.kind step.dispatched_actor

  abbrev pub has_actor : StepKind F → Bool
  has_actor (task t) = true
  has_actor (gate g) = true
  has_actor (fanout m) = false
  has_actor (join m) = false

  -- Dispatched, or with an answer that is not captured yet.
  unfoldable pub is_in_flight : List (String × String) → Step F → Bool
  unfolding step_has_pending_response
  is_in_flight responses step =
      is_some step.dispatched_at || step_has_pending_response responses step

  abbrev pub waits_at : List (Step F) → List (String × String) → ℕ → Bool
  unfolding is_in_flight
  waits_at steps responses i = elim (get_elem? steps i) [
    | none ↦ false
    | some step ↦ has_actor step.kind && not step.completed && is_in_flight responses step
  ]

  unfoldable pub has_waiting_active_workflow_actor :
      List (Step F) → List ℕ → List ℕ → List (String × String) → Bool
  unfolding waits_at includes
  has_waiting_active_workflow_actor steps previous ready responses =
      any (λ i. includes previous i && waits_at steps responses i) ready

  -- Is the index that of the join, or in a branch?
  unfoldable pub is_of_fanout : FanoutMetadata F → ℕ → Bool
  is_of_fanout m i =
      nat_eq i m.join_index
      || any (λ (r : BranchRange). leb r.start_index i && leb i r.end_index) m.branch_ranges

  abbrev pub complete_step : Step F → Step F
  complete_step step = record step { runtime = record step.runtime { completed = true } }

  abbrev pub marker_is_expanded : StepKind F → List ℕ → Bool
  unfolding is_of_fanout
  marker_is_expanded (fanout (some m)) ready = any (is_of_fanout m) ready
  marker_is_expanded _ ready = false

  unfoldable pub complete_expanded_fanout_markers : List (Step F) → List ℕ → List (Step F)
  unfolding marker_is_expanded
  complete_expanded_fanout_markers steps ready =
      map
        (λ step.
          if not step.completed && marker_is_expanded step.kind ready
          then complete_step step
          else step)
        steps

  -- The first reason that a run is finished with stays.
  abbrev pub keep_finished : WorkflowRun F → WorkflowRun F → WorkflowRun F
  keep_finished before after = record after { finished = or_else before.finished after.finished }

  -- A finished run is not paused.
  abbrev pub pause_before : ℕ → WorkflowRun F → WorkflowRun F × Bool
  unfolding maybe_pause_before_workflow_step
  pause_before index run =
      if is_some run.finished then (run, false) else maybe_pause_before_workflow_step index run

  -- A join that has fired may wait for the approval of the leader.
  unfoldable pub after_join : ℕ → WorkflowRun F → JoinAdvance → WorkflowRun F × StepSwept
  unfolding maybe_request_approval
  after_join index run failed = (run, stopped)
  after_join index run dispatched = (run, sent)
  after_join index run waiting = (run, sent)
  after_join index run noop = (run, nothing)
  after_join index run completed =
      let (asked, paused) = maybe_request_approval index run in
      if is_some run.finished then (run, nothing) else (asked, if paused then stopped else nothing)

module _ {F : Type 0} ⦃fr : Fraction F⦄ (host : Host) where
  -- A dispatch by the kind of the step: a task's, or else a gate's.
  unfoldable pub dispatch_by_kind : StepKind F → WorkflowRun F → ℕ → WorkflowRun F × Dispatched
  unfolding dispatch_task_step dispatch_gate_step
  dispatch_by_kind (task t) run index = dispatch_task_step host.members host.now host.uuid run index
  dispatch_by_kind _ run index =
      dispatch_gate_step host.members host.send host.now host.uuid run index

  -- After a dispatch to nobody: the branch is given up, or the run ends.
  abbrev pub degrade : WorkflowRun F → Step F → WorkflowRun F × StepSwept
  unfolding handle_workflow_dispatch_unavailable
  degrade run step =
      if is_some run.finished
      then (run, stopped)
      else (let (after, degraded) = handle_workflow_dispatch_unavailable run step in
          (after, if degraded then nothing else stopped))

  unfoldable pub sweep_join : WorkflowRun F → ℕ → WorkflowRun F × StepSwept
  unfolding complete_workflow_join_step after_join
  sweep_join run index =
      let (after, outcome) =
        complete_workflow_join_step host.texts host.members host.now host.uuid run index in
      after_join index (keep_finished run after) outcome

  module _ (follow : Next → WorkflowRun F → Option (WorkflowRun F)) where
    unfoldable pub after_dispatch :
        Step F → WorkflowRun F × Dispatched → Option (WorkflowRun F × StepSwept)
    unfolding degrade
    after_dispatch step (run, not_dispatched) = some (degrade run step)
    after_dispatch step (run, sends names) = some (run, sent)
    after_dispatch step (run, settled next) = elim (follow next run) [
      | none ↦ none
      | some after ↦ some (after, sent)
    ]

    unfoldable pub sweep_actor : WorkflowRun F → ℕ → Step F → Option (WorkflowRun F × StepSwept)
    unfolding pause_before dispatch_by_kind after_dispatch
    sweep_actor run index step =
        let (before, paused) = pause_before index run in
        let (after, result) = dispatch_by_kind step.kind before index in
        if paused
        then some (before, stopped)
        else after_dispatch step (keep_finished before after, result)

    unfoldable pub sweep_kind :
        StepKind F → List ℕ → WorkflowRun F → ℕ → Step F → Option (WorkflowRun F × StepSwept)
    unfolding sweep_actor sweep_join is_in_flight includes
    sweep_kind (fanout m) previous run index step =
        some (update_step index complete_step run, nothing)
    sweep_kind (join m) previous run index step = some (sweep_join run index)
    sweep_kind _ previous run index step =
        if includes previous index && is_in_flight run.responses step
        then some (run, nothing)
        else sweep_actor run index step

    unfoldable pub sweep_step : List ℕ → WorkflowRun F → ℕ → Option (WorkflowRun F × StepSwept)
    unfolding sweep_kind
    sweep_step previous run index = elim (get_elem? (steps_of_run run) index) [
      | none ↦ some (run, nothing)
      | some step ↦ sweep_kind step.kind previous run index step
    ]

    -- The ready steps one after the other; `asked` says that a member was asked already.
    unfoldable pub sweep :
        List ℕ → List ℕ → Bool → WorkflowRun F → Option (WorkflowRun F × StepSwept)
    unfolding sweep_step
    sweep previous [] asked run = some (run, has_sent asked)
    sweep previous (i ∷ ready) asked run = elim (sweep_step previous run i) [
      | none ↦ none
      | some (after, stopped) ↦ some (after, stopped)
      | some (after, sent) ↦ sweep previous ready true after
      | some (after, nothing) ↦ sweep previous ready asked after
    ]
