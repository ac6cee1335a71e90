-- ===== src/Workflow/Advance/Loop/Ends.antt =====
-- When `advanceWorkflowStep` of engine.ts ends a run as complete, or as a deadlock.
use mathlib.Core.Bool.{false≢true}
use octeam.Prelude.{
  ℕ, zero, suc, ◌≡◌, inl, inr, refl, ap, sym, ◌∙◌, Bool, true, false, ◌&&◌, Option, none, some,
  List, [], ◌∷◌, arith, get_elem?, is_some, Bool-cases, Option-cases, if◌then◌else◌, eq_nat,
}
use octeam.Prelude.Member.{includes}
use octeam.Workflow.Types.{StepKind, task, gate, fanout, join, Step}
use octeam.Workflow.JoinPolicy.Ieee.{Fraction}
use octeam.Workflow.Dag.Actors.{sorted_workflow_indices, get_active_workflow_step_indices}
use octeam.Workflow.Dag.Ready.{ready_workflow_step_indices}
use octeam.Workflow.Engine.State.{
  WorkflowRun, Next, workflow_complete, frontier_deadlock, steps_of_run, with_steps,
}
use octeam.Workflow.Verdicts.Settle.{
  has_incomplete, maybe_request_approval, maybe_pause_before_workflow_step, force_approval_request,
}
use octeam.Workflow.Dispatch.Send.{Dispatched, not_dispatched, sends, settled}
use octeam.Workflow.Advance.Joins.{JoinAdvance, complete_workflow_join_step}
use octeam.Workflow.Dispatch.Open.{
  is_open, or_else-is_open, List-cases, DispatchOpen, dispatch_task-Open, dispatch_gate-Open,
}
use octeam.Workflow.Advance.Joins.Open.{unavailable-open, join-open}
use octeam.Workflow.Advance.Sweep.{
  Host, StepSwept, pause_before, keep_finished, dispatch_by_kind, after_join, after_dispatch,
  sweep_actor, sweep_join, sweep_kind, sweep_step, sweep, is_in_flight,
  has_waiting_active_workflow_actor, stopped, sent, nothing,
}
use octeam.Workflow.Advance.Loop.{
  complete_run, advance_frontier, advance_linear, advance_workflow_step, first_incomplete, activate,
}

module _ {F : Type 0} where
  pause_before-finished :
      (index : ℕ) (run : WorkflowRun F) → (pause_before index run).0.finished ≡ run.finished
  unfolding maybe_pause_before_workflow_step force_approval_request
  pause_before-finished index run = ground arith

module _ {F : Type 0} ⦃fr : Fraction F⦄ where
  after_join-open :
      (index : ℕ) (run : WorkflowRun F) (outcome : JoinAdvance)
      → is_open run.finished ≡ true
      → is_open (after_join index run outcome).0.finished ≡ true
  unfolding after_join maybe_request_approval force_approval_request
  after_join-open index run JoinAdvance.failed h = h
  after_join-open index run JoinAdvance.dispatched h = h
  after_join-open index run JoinAdvance.waiting h = h
  after_join-open index run JoinAdvance.noop h = h
  after_join-open index run JoinAdvance.completed h = ground (arith, h)

  dispatch_by_kind-Open :
      (host : Host) (kind : StepKind F) (run : WorkflowRun F) (index : ℕ)
      → is_open run.finished ≡ true
      → DispatchOpen (dispatch_by_kind host kind run index)
  unfolding dispatch_by_kind
  dispatch_by_kind-Open host (task t) run index h =
      dispatch_task-Open host.members host.now host.uuid run index h
  dispatch_by_kind-Open host (gate g) run index h =
      dispatch_gate-Open host.members host.send host.now host.uuid run index h
  dispatch_by_kind-Open host (fanout m) run index h =
      dispatch_gate-Open host.members host.send host.now host.uuid run index h
  dispatch_by_kind-Open host (join m) run index h =
      dispatch_gate-Open host.members host.send host.now host.uuid run index h

  keep-Open :
      (before after : WorkflowRun F) (result : Dispatched)
      → is_open before.finished ≡ true
      → DispatchOpen (after, result)
      → DispatchOpen (keep_finished before after, result)
  keep-Open before after not_dispatched h k = or_else-is_open before.finished after.finished h k
  keep-Open before after (sends names) h k = or_else-is_open before.finished after.finished h k
  keep-Open before after (settled next) h k = tt

  abbrev SweptOpen : Option (WorkflowRun F × StepSwept) → Type 0
  SweptOpen none = Unit
  SweptOpen (some (run, swept)) = is_open run.finished ≡ true

  -- At an end the steps agree with the reason.
  abbrev pub EndsWell : Option (WorkflowRun F) → Type 0
  EndsWell none = Unit
  EndsWell (some run) =
      (run.finished ≡ some workflow_complete → has_incomplete (steps_of_run run) ≡ false)
      × (run.finished ≡ some frontier_deadlock → has_incomplete (steps_of_run run) ≡ true)

  open-EndsWell : (run : WorkflowRun F) → is_open run.finished ≡ true → EndsWell (some run)
  open-EndsWell run h = (
    λ e. absurd (false≢true (sym (ap is_open e) ∙ h)),
    λ e. absurd (false≢true (sym (ap is_open e) ∙ h)),
  )

  first_incomplete-none :
      (steps : List (Step F)) (i : ℕ)
      → first_incomplete steps i ≡ none
      → has_incomplete steps ≡ false
  unfolding first_incomplete has_incomplete
  first_incomplete-none [] i h = refl
  first_incomplete-none (step ∷ steps) i h = elim (Bool-cases step.completed) [
    | inl done ↦ ground (arith, h, done, first_incomplete-none steps (suc i))
    | inr still ↦ absurd (ground (arith, h, still))
  ]

  complete_run-EndsWell :
      (host : Host) (run : WorkflowRun F)
      → is_open run.finished ≡ true
      → has_incomplete (steps_of_run run) ≡ false
      → EndsWell (some (complete_run host run))
  unfolding complete_run
  complete_run-EndsWell host run h every = elim (Bool-cases host.signs_off) [
    | inl signs ↦ rw (complete_run, signs) (open-EndsWell run h)
    | inr plain ↦ rw (complete_run, plain) (λ _. every, λ e. absurd (cc))
  ]

  module _ (host : Host) (follow : Next → WorkflowRun F → Option (WorkflowRun F))
      (open_follow : (next : Next) (run after : WorkflowRun F)
        → follow next run ≡ some after
        → is_open after.finished ≡ true) where
    after_dispatch-Open :
        (step : Step F) (run : WorkflowRun F) (result : Dispatched)
        → DispatchOpen (run, result)
        → SweptOpen (after_dispatch host follow step (run, result))
    unfolding after_dispatch
    after_dispatch-Open step run not_dispatched h = elim (Bool-cases (is_some run.finished)) [
      | inl over ↦ rw (after_dispatch, over) h
      | inr still ↦ rw (after_dispatch, still) (unavailable-open run step h)
    ]
    after_dispatch-Open step run (sends names) h = h
    after_dispatch-Open step run (settled next) h = elim (Option-cases (follow next run)) [
      | inl e ↦ rw (after_dispatch, e) tt
      | inr (after, e) ↦ rw (after_dispatch, e) (open_follow next run after e)
    ]

    sweep_actor-Open :
        (run : WorkflowRun F) (index : ℕ) (step : Step F)
        → is_open run.finished ≡ true
        → SweptOpen (sweep_actor host follow run index step)
    unfolding sweep_actor
    sweep_actor-Open run index step h =
        let before = (pause_before index run).0 in
        let before_open = ap is_open (pause_before-finished index run) ∙ h in
        let out = dispatch_by_kind host step.kind before index in
        elim (Bool-cases (pause_before index run).1) [
          | inl paused ↦ rw (sweep_actor, paused) before_open
          | inr free ↦
              rw (sweep_actor, free)
                (after_dispatch-Open step (keep_finished before out.0) out.1 (
                  keep-Open before out.0 out.1 before_open
                    (dispatch_by_kind-Open host step.kind before index before_open)))
        ]

    sweep_join-open :
        (run : WorkflowRun F) (index : ℕ)
        → is_open run.finished ≡ true
        → is_open (sweep_join host run index).0.finished ≡ true
    unfolding sweep_join
    sweep_join-open run index h =
        let out =
          complete_workflow_join_step host.texts host.members host.now host.uuid run index in
        after_join-open index (keep_finished run out.0) out.1 (
          or_else-is_open run.finished out.0.finished h
            (join-open host.texts host.members host.now host.uuid run index h))

    unless_in_flight-Open :
        (previous : List ℕ) (run : WorkflowRun F) (index : ℕ) (step : Step F)
        → is_open run.finished ≡ true
        → SweptOpen (
            if includes previous index && is_in_flight run.responses step
            then some (run, nothing)
            else sweep_actor host follow run index step)
    unless_in_flight-Open previous run index step h =
        elim (Bool-cases (includes previous index && is_in_flight run.responses step)) [
          | inl skips ↦ rw skips h
          | inr asks ↦ rw asks (sweep_actor-Open run index step h)
        ]

    sweep_kind-Open :
        (kind : StepKind F) (previous : List ℕ) (run : WorkflowRun F) (index : ℕ) (step : Step F)
        → is_open run.finished ≡ true
        → SweptOpen (sweep_kind host follow kind previous run index step)
    unfolding sweep_kind
    sweep_kind-Open (task t) previous run index step h =
        unless_in_flight-Open previous run index step h
    sweep_kind-Open (gate g) previous run index step h =
        unless_in_flight-Open previous run index step h
    sweep_kind-Open (fanout m) previous run index step h = h
    sweep_kind-Open (join m) previous run index step h = sweep_join-open run index h

    sweep_step-Open :
        (previous : List ℕ) (run : WorkflowRun F) (index : ℕ)
        → is_open run.finished ≡ true
        → SweptOpen (sweep_step host follow previous run index)
    unfolding sweep_step
    sweep_step-Open previous run index h =
        elim (Option-cases (get_elem? (steps_of_run run) index)) [
          | inl e ↦ rw (sweep_step, e) h
          | inr (step, e) ↦ rw (sweep_step, e) (sweep_kind-Open step.kind previous run index step h)
        ]

    sweep-Open :
        (previous ready : List ℕ) (asked : Bool) (run : WorkflowRun F)
        → is_open run.finished ≡ true
        → SweptOpen (sweep host follow previous ready asked run)
    unfolding sweep
    sweep-Open previous [] asked run h = h
    sweep-Open previous (i ∷ ready) asked run h =
        let one = sweep_step-Open previous run i h in
        elim (Option-cases (sweep_step host follow previous run i)) [
          | inl e ↦ rw (sweep, e) tt
          | inr ((after, stopped), e) ↦ rw (sweep, e) (rw e at one)
          | inr ((after, sent), e) ↦
              rw (sweep, e) (sweep-Open previous ready true after (rw e at one))
          | inr ((after, nothing), e) ↦
              rw (sweep, e) (sweep-Open previous ready asked after (rw e at one))
        ]

    frontier-EndsWell :
        (fuel : ℕ) (previous : List ℕ) (run : WorkflowRun F)
        → is_open run.finished ≡ true
        → EndsWell (advance_frontier host follow fuel previous run)
    unfolding advance_frontier
    frontier-EndsWell zero previous run h = tt
    frontier-EndsWell (suc fuel) previous run h =
        elim (Option-cases (ready_workflow_step_indices run.view)) [
          | inl e ↦ rw (advance_frontier, e) tt
          | inr ((steps, found), e) ↦ elim (List-cases (sorted_workflow_indices found)) [
            | inl none_ready ↦
                let here = with_steps run steps in
                elim (Bool-cases (has_incomplete steps)) [
                  | inl left ↦
                      rw (advance_frontier, e, none_ready, left) (λ bad. absurd (cc), λ _. left)
                  | inr every ↦
                      rw (advance_frontier, e, none_ready, every)
                        (complete_run-EndsWell host here h every)
                ]
            | inr (first, later, ready) ↦
                let begun = activate (with_steps run steps) first later in
                let one = sweep-Open previous (first ∷ later) false begun h in
                elim (Option-cases (sweep host follow previous (first ∷ later) false begun)) [
                  | inl e2 ↦ rw (advance_frontier, e, ready, e2) tt
                  | inr ((after, stopped), e2) ↦
                      rw (advance_frontier, e, ready, e2) (open-EndsWell after (rw e2 at one))
                  | inr ((after, sent), e2) ↦
                      rw (advance_frontier, e, ready, e2) (open-EndsWell after (rw e2 at one))
                  | inr ((after, nothing), e2) ↦
                      elim (Bool-cases (
                        has_waiting_active_workflow_actor (steps_of_run after) previous
                          (first ∷ later) after.responses)) [
                            | inl waits ↦
                                rw (advance_frontier, e, ready, e2, waits)
                                  (open-EndsWell after (rw e2 at one))
                            | inr again ↦
                                rw (advance_frontier, e, ready, e2, again)
                                  (frontier-EndsWell fuel
                                    (get_active_workflow_step_indices after.view) after
                                    (rw e2 at one))
                          ]
                ]
          ]
        ]

    linear-EndsWell :
        (run : WorkflowRun F)
        → is_open run.finished ≡ true
        → EndsWell (advance_linear host follow run)
    unfolding advance_linear
    linear-EndsWell run h = elim (Option-cases (first_incomplete (steps_of_run run) 0)) [
      | inl e ↦
          rw (advance_linear, e)
            (complete_run-EndsWell host run h (first_incomplete-none (steps_of_run run) 0 e))
      | inr (index, e) ↦ elim (Option-cases (get_elem? (steps_of_run run) index)) [
        | inl gone ↦ rw (advance_linear, e, gone) (open-EndsWell run h)
        | inr (step, at) ↦
            let begun : WorkflowRun F = record run {
              view = record run.view { current_stage_index = index };
            } in
            let one = sweep_actor-Open begun index step h in
            elim (Option-cases (sweep_actor host follow begun index step)) [
              | inl e2 ↦ rw (advance_linear, e, at, e2) tt
              | inr ((after, swept), e2) ↦
                  rw (advance_linear, e, at, e2) (open-EndsWell after (rw e2 at one))
            ]
      ]
    ]

    advance-EndsWell :
        (fuel : ℕ) (run : WorkflowRun F)
        → is_open run.finished ≡ true
        → EndsWell (advance_workflow_step host follow fuel run)
    unfolding advance_workflow_step
    advance-EndsWell fuel run h = elim (Bool-cases (is_some run.view.active_step_indices)) [
      | inl frontier ↦
          rw (advance_workflow_step, frontier)
            (frontier-EndsWell fuel (get_active_workflow_step_indices run.view) run h)
      | inr linear ↦ rw (advance_workflow_step, linear) (linear-EndsWell run h)
    ]

  -- Where no verdict is followed.
  pub quiet-EndsWell :
      (host : Host) (fuel : ℕ) (run : WorkflowRun F)
      → is_open run.finished ≡ true
      → EndsWell (advance_workflow_step host (λ next run. none) fuel run)
  quiet-EndsWell host fuel run h =
      advance-EndsWell host (λ next run. none) (λ next run after e. absurd (cc)) fuel run h
