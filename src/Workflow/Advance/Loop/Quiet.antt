-- ===== src/Workflow/Advance/Loop/Quiet.antt =====
-- Calls of `advanceWorkflowStep` of engine.ts that act on no verdict: no ensemble whose verifiers have
-- all answered is dispatched in them.
use octeam.Prelude.{
  ℕ, zero, suc, ◌≡◌, inl, inr, Bool, true, false, ◌&&◌, Option, none, some, List, [], ◌∷◌,
  get_elem?, is_some, subst, Bool-cases, Option-cases, if◌then◌else◌, eq_nat,
}
use octeam.Prelude.Member.{includes}
use octeam.Workflow.Types.{StepKind, task, gate, fanout, join, Step}
use octeam.Workflow.JoinPolicy.Ieee.{Fraction}
use octeam.Workflow.Dag.Actors.{sorted_workflow_indices, get_active_workflow_step_indices}
use octeam.Workflow.Dag.Ready.{ready_workflow_step_indices}
use octeam.Workflow.Engine.State.{
  WorkflowRun, Next, workflow_complete, frontier_deadlock, steps_of_run, with_steps,
}
use octeam.Workflow.Verdicts.Settle.{has_incomplete}
use octeam.Workflow.Dispatch.Send.{Dispatched, not_dispatched, sends, settled}
use octeam.Workflow.Dispatch.Open.{is_open, List-cases}
use octeam.Workflow.Advance.Sweep.{
  Host, StepSwept, pause_before, keep_finished, dispatch_by_kind, after_dispatch, sweep_actor,
  sweep_kind, sweep_step, sweep, is_in_flight, has_waiting_active_workflow_actor, stopped, sent,
  nothing,
}
use octeam.Workflow.Advance.Loop.{
  advance_frontier, advance_linear, advance_workflow_step, first_incomplete, activate, follow_next,
}
use octeam.Workflow.Advance.Loop.Ends.{EndsWell, quiet-EndsWell}

module _ {F : Type 0} ⦃fr : Fraction F⦄ (host : Host)
    (follow : Next → WorkflowRun F → Option (WorkflowRun F)) where
  -- No verdict is followed.
  abbrev quiet : Next → WorkflowRun F → Option (WorkflowRun F)
  quiet next run = none

  quiet-after_dispatch :
      (step : Step F) (run : WorkflowRun F) (result : Dispatched) (r : WorkflowRun F × StepSwept)
      → after_dispatch host quiet step (run, result) ≡ some r
      → after_dispatch host follow step (run, result) ≡ some r
  unfolding after_dispatch
  quiet-after_dispatch step run not_dispatched r h = h
  quiet-after_dispatch step run (sends names) r h = h
  quiet-after_dispatch step run (settled next) r h = absurd (cc)

  quiet-sweep_actor :
      (run : WorkflowRun F) (index : ℕ) (step : Step F) (r : WorkflowRun F × StepSwept)
      → sweep_actor host quiet run index step ≡ some r
      → sweep_actor host follow run index step ≡ some r
  unfolding sweep_actor
  quiet-sweep_actor run index step r =
      let before = (pause_before index run).0 in
      let out = dispatch_by_kind host step.kind before index in
      elim (Bool-cases (pause_before index run).1) [
        | inl paused ↦ rw (sweep_actor, paused) (λ h. h)
        | inr free ↦
            rw (sweep_actor, free) (quiet-after_dispatch step (keep_finished before out.0) out.1 r)
      ]

  quiet-in_flight :
      (in_flight : Bool) (run : WorkflowRun F) (index : ℕ) (step : Step F)
      (r : WorkflowRun F × StepSwept)
      → (if in_flight then some (run, nothing) else sweep_actor host quiet run index step) ≡ some r
      → (if in_flight then some (run, nothing) else sweep_actor host follow run index step) ≡ some r
  quiet-in_flight true run index step r h = h
  quiet-in_flight false run index step r h = quiet-sweep_actor run index step r h

  quiet-sweep_kind :
      (kind : StepKind F) (previous : List ℕ) (run : WorkflowRun F) (index : ℕ) (step : Step F)
      (r : WorkflowRun F × StepSwept)
      → sweep_kind host quiet kind previous run index step ≡ some r
      → sweep_kind host follow kind previous run index step ≡ some r
  unfolding sweep_kind
  quiet-sweep_kind (task t) previous run index step r =
      quiet-in_flight (includes previous index && is_in_flight run.responses step) run index step r
  quiet-sweep_kind (gate g) previous run index step r =
      quiet-in_flight (includes previous index && is_in_flight run.responses step) run index step r
  quiet-sweep_kind (fanout m) previous run index step r = λ h. h
  quiet-sweep_kind (join m) previous run index step r = λ h. h

  quiet-sweep_step :
      (previous : List ℕ) (run : WorkflowRun F) (index : ℕ) (r : WorkflowRun F × StepSwept)
      → sweep_step host quiet previous run index ≡ some r
      → sweep_step host follow previous run index ≡ some r
  unfolding sweep_step
  quiet-sweep_step previous run index r = elim (Option-cases (get_elem? (steps_of_run run) index)) [
    | inl e ↦ rw (sweep_step, e) (λ h. h)
    | inr (step, e) ↦ rw (sweep_step, e) (quiet-sweep_kind step.kind previous run index step r)
  ]

  quiet-sweep :
      (previous ready : List ℕ) (asked : Bool) (run : WorkflowRun F) (r : WorkflowRun F × StepSwept)
      → sweep host quiet previous ready asked run ≡ some r
      → sweep host follow previous ready asked run ≡ some r
  unfolding sweep
  quiet-sweep previous [] asked run r = λ h. h
  quiet-sweep previous (i ∷ ready) asked run r =
      let same = quiet-sweep_step previous run i in
      elim (Option-cases (sweep_step host quiet previous run i)) [
        | inl e ↦ rw (sweep, e) (λ h. absurd (cc))
        | inr ((after, stopped), e) ↦ rw (sweep, e, same (after, stopped) e) (λ h. h)
        | inr ((after, sent), e) ↦
            rw (sweep, e, same (after, sent) e) (quiet-sweep previous ready true after r)
        | inr ((after, nothing), e) ↦
            rw (sweep, e, same (after, nothing) e) (quiet-sweep previous ready asked after r)
      ]

  quiet-frontier :
      (fuel : ℕ) (previous : List ℕ) (run r : WorkflowRun F)
      → advance_frontier host quiet fuel previous run ≡ some r
      → advance_frontier host follow fuel previous run ≡ some r
  unfolding advance_frontier
  quiet-frontier zero previous run r = λ h. absurd (cc)
  quiet-frontier (suc fuel) previous run r =
      elim (Option-cases (ready_workflow_step_indices run.view)) [
        | inl e ↦ rw (advance_frontier, e) (λ h. h)
        | inr ((steps, found), e) ↦ elim (List-cases (sorted_workflow_indices found)) [
          | inl none_ready ↦ rw (advance_frontier, e, none_ready) (λ h. h)
          | inr (first, later, ready) ↦
              let begun = activate (with_steps run steps) first later in
              let same = quiet-sweep previous (first ∷ later) false begun in
              elim (Option-cases (sweep host quiet previous (first ∷ later) false begun)) [
                | inl e2 ↦ rw (advance_frontier, e, ready, e2) (λ h. absurd (cc))
                | inr ((after, stopped), e2) ↦
                    rw (advance_frontier, e, ready, e2, same (after, stopped) e2) (λ h. h)
                | inr ((after, sent), e2) ↦
                    rw (advance_frontier, e, ready, e2, same (after, sent) e2) (λ h. h)
                | inr ((after, nothing), e2) ↦
                    elim (Bool-cases (
                      has_waiting_active_workflow_actor (steps_of_run after) previous
                        (first ∷ later) after.responses)) [
                          | inl waits ↦
                              rw (advance_frontier, e, ready, e2, same (after, nothing) e2, waits)
                                (λ h. h)
                          | inr again ↦
                              rw (advance_frontier, e, ready, e2, same (after, nothing) e2, again)
                                (quiet-frontier fuel (get_active_workflow_step_indices after.view)
                                  after r)
                        ]
              ]
        ]
      ]

  quiet-linear :
      (run r : WorkflowRun F)
      → advance_linear host quiet run ≡ some r
      → advance_linear host follow run ≡ some r
  unfolding advance_linear
  quiet-linear run r = elim (Option-cases (first_incomplete (steps_of_run run) 0)) [
    | inl e ↦ rw (advance_linear, e) (λ h. h)
    | inr (index, e) ↦ elim (Option-cases (get_elem? (steps_of_run run) index)) [
      | inl gone ↦ rw (advance_linear, e, gone) (λ h. h)
      | inr (step, at) ↦
          let begun : WorkflowRun F = record run {
            view = record run.view { current_stage_index = index };
          } in
          elim (Option-cases (sweep_actor host quiet begun index step)) [
            | inl e2 ↦ rw (advance_linear, e, at, e2) (λ h. absurd (cc))
            | inr (swept, e2) ↦
                rw (advance_linear, e, at, e2, quiet-sweep_actor begun index step swept e2) (λ h. h)
          ]
    ]
  ]

  quiet-advance :
      (fuel : ℕ) (run r : WorkflowRun F)
      → advance_workflow_step host quiet fuel run ≡ some r
      → advance_workflow_step host follow fuel run ≡ some r
  unfolding advance_workflow_step
  quiet-advance fuel run r = elim (Bool-cases (is_some run.view.active_step_indices)) [
    | inl frontier ↦
        rw (advance_workflow_step, frontier)
          (quiet-frontier fuel (get_active_workflow_step_indices run.view) run r)
    | inr linear ↦ rw (advance_workflow_step, linear) (quiet-linear run r)
  ]

module _ {F : Type 0} ⦃fr : Fraction F⦄ where
  -- Let the run not be ended as complete or as a deadlock, and let the call return with no verdict of an
  -- ensemble acted on in it: it returns where each verdict is left without an answer. Then it returns
  -- the same where the program follows its verdicts, and the run is finished as complete only when every step is
  -- completed, and as a deadlock only when a step is left that is not completed.
  pub advance_ends :
      (host : Host) (depth fuel : ℕ) (run after : WorkflowRun F)
      → is_open run.finished ≡ true
      → advance_workflow_step host (λ next run. none) fuel run ≡ some after
      → (advance_workflow_step host (follow_next host depth) fuel run ≡ some after)
        × (after.finished ≡ some workflow_complete → has_incomplete (steps_of_run after) ≡ false)
        × (after.finished ≡ some frontier_deadlock → has_incomplete (steps_of_run after) ≡ true)
  advance_ends host depth fuel run after h returns =
      let (complete, deadlock) = subst EndsWell returns (quiet-EndsWell host fuel run h) in
      (quiet-advance host (follow_next host depth) fuel run after returns, complete, deadlock)
